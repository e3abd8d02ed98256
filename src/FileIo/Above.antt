-- ===== src/FileIo/Above.antt =====
-- What the deny list does not cover: the directories above a denied one.
use zyris_docker.Prelude.{
  ◌≡◌, ◌⊎◌, refl, sym, ap, subst, ◌∙◌, inl, inr, Bool, Option, some, List, [], ◌∷◌, ◌++◌, reverse,
  ok, All, Any, All-map, append-nil,
}
use mathlib.Core.List.{reverse-reverse}
use zyris_docker.FilePath.{Component, FilePath}
use zyris_docker.FilePath.Clean.{IsClean, IsUnder}
use zyris_docker.FilePath.Display.{display}
use zyris_docker.Gate.{PathGate, gate_root, deepest, canonicalize_deepest, check}
use zyris_docker.Gate.Check.{resolved, check_iff}
use zyris_docker.Gate.Join.{join-display}
use zyris_docker.FileIo.{remove, LocalFileIo, gate_ok, gated}

not_longer : (p : FilePath) (c : Component) (rest more : FilePath) → p ≡ (p ++ c ∷ rest) ++ more → ⊥
not_longer [] c rest more e = cc
not_longer (d ∷ p) c rest more e = not_longer p c rest more (cc)

module _ (canonicalize : FilePath → Option FilePath) where
  deepest_resolved :
      (path real : FilePath) (existing : List Component)
      → canonicalize (reverse existing) ≡ some real
      → deepest canonicalize path existing [] ≡ real ++ []
  unfolding deepest
  deepest_resolved path real [] h = rw (h, deepest) refl
  deepest_resolved path real (c ∷ rest) h = rw (h, deepest) refl

  resolves_itself :
      (p : FilePath) → canonicalize p ≡ some p → canonicalize_deepest canonicalize p ≡ p
  unfolding canonicalize_deepest
  resolves_itself p h =
      deepest_resolved p p (reverse p)
        (subst (λ q. canonicalize q ≡ some p) (sym (reverse-reverse p)) h)
      ∙ append-nil p

  module _ (gate : PathGate) (inner : LocalFileIo) (p : FilePath) where
    outside :
        (dir : FilePath) (c : Component) (rest d : FilePath)
        → dir ≡ p ++ c ∷ rest
        → (d ≡ dir) ⊎ (¬ IsUnder p d)
        → ¬ IsUnder p d
    outside dir c rest d above (inl same) (more, under) =
        not_longer p c rest more (under ∙ ap (λ q. q ++ more) (same ∙ above))
    outside dir c rest d above (inr apart) under = apart under

    -- The gate does not guard a denied directory against the removal of one above it: of a
    -- clean path that resolves to itself and is under an allowed root, where one denied
    -- directory is below it and it is under none of the others, `remove`, recursive or not,
    -- is handed to the layer below as it is.
    pub remove_above :
        (dir : FilePath) (c : Component) (rest : FilePath) (recursive : Option Bool)
        (disk : inner.Disk)
        → IsClean p
        → canonicalize p ≡ some p
        → Any (IsUnder p) gate.roots
        → dir ≡ p ++ c ∷ rest
        → All (λ d. (d ≡ dir) ⊎ (¬ IsUnder p d)) gate.deny
        → gated canonicalize gate inner (remove (display p) recursive) disk
          ≡ inner.serve (remove (display p) recursive) disk
    unfolding gated gate_ok
    remove_above dir c rest recursive disk clean itself inside above others =
        let reached : resolved canonicalize gate (display p) ≡ p =
          ap (canonicalize_deepest canonicalize) (join-display (gate_root gate) p clean)
          ∙ resolves_itself p itself in
        let passes : check canonicalize gate (display p) ≡ ok p =
          (check_iff canonicalize gate (display p) p).1
            (sym reached, (inside, All-map (λ d. outside dir c rest d above) gate.deny others)) in
        rw passes refl
