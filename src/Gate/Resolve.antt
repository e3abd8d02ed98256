-- ===== src/Gate/Resolve.antt =====
-- `canonicalize_deepest`: it resolves the deepest ancestor that the file system can resolve.
use mathlib.Core.List.{reverse-cons, reverse-reverse, reverse_aux}
use zyris_docker.Prelude.{
  ◌≡◌, refl, sym, ap, subst, ◌∙◌, inl, inr, ◌≢◌, Option, none, some, List, [], ◌∷◌, ◌++◌, reverse,
  append_assoc, append-nil, Option-cases,
}
use zyris_docker.FilePath.{Component, root_dir, cur_dir, parent_dir, normal, FilePath}
use zyris_docker.FilePath.Clean.{AreNames, IsClean, IsClean-append}
use zyris_docker.Gate.Defs.{deepest, canonicalize_deepest}

abbrev pub ArePlain : FilePath → Type 0
ArePlain [] = Unit
ArePlain (normal n ∷ p) = ArePlain p
ArePlain (_ ∷ p) = ⊥

module _ (canonicalize : FilePath → Option FilePath) where
  -- No ancestor between `base` and `base ++ tail`, the end included, resolves.
  abbrev pub NoneBelow : FilePath → FilePath → Type 0
  NoneBelow base tail =
      (mid rest : FilePath) → mid ≢ [] → tail ≡ mid ++ rest → canonicalize (base ++ mid) ≡ none

  -- `path` is `base` and the names `tail`; `base` is the deepest ancestor that resolves.
  pub record Deepest (path result : FilePath) : Type 0 where
    pub base : FilePath
    pub tail : FilePath
    pub real : FilePath
    pub splits : path ≡ base ++ tail
    pub resolves : canonicalize base ≡ some real
    pub plain : ArePlain tail
    pub none_below : NoneBelow base tail
    pub joined : result ≡ real ++ tail

  below_step :
      (c : Component) (rest tail : FilePath)
      → canonicalize (reverse (c ∷ rest)) ≡ none
      → NoneBelow (reverse (c ∷ rest)) tail
      → NoneBelow (reverse rest) (c ∷ tail)
  below_step c rest tail e h [] r ne eq = absurd (ne refl)
  below_step c rest tail e h (d ∷ []) r ne eq =
      let same : d ≡ c = cc in rw (same, ← reverse-cons c rest) e
  below_step c rest tail e h (d ∷ m ∷ mid) r ne eq =
      let same : d ≡ c = cc in
      rw (same, ← append_assoc (reverse rest) (c ∷ []) (m ∷ mid), ← reverse-cons c rest)
        (h (m ∷ mid) r (λ x. cc) (cc))

append_nil_left : (mid rest : FilePath) → [] ≡ mid ++ rest → mid ≡ []
append_nil_left [] rest e = refl
append_nil_left (c ∷ mid) rest e = cc

AreNames-append_right : (p q : FilePath) → AreNames (p ++ q) → AreNames q
AreNames-append_right [] q h = h
AreNames-append_right (normal n ∷ p) q h = AreNames-append_right p q h.1
AreNames-append_right (root_dir ∷ p) q h = absurd h
AreNames-append_right (cur_dir ∷ p) q h = absurd h
AreNames-append_right (parent_dir ∷ p) q h = absurd h

-- The components of a clean path from the last to the first.
abbrev EndsAtRoot : List Component → Type 0
EndsAtRoot [] = ⊥
EndsAtRoot (root_dir ∷ []) = Unit
EndsAtRoot (root_dir ∷ c ∷ p) = ⊥
EndsAtRoot (normal n ∷ p) = EndsAtRoot p
EndsAtRoot (_ ∷ p) = ⊥

EndsAtRoot-reverse :
    (p acc : FilePath) → AreNames p → EndsAtRoot acc → EndsAtRoot (reverse_aux p acc)
EndsAtRoot-reverse [] acc h ends = ends
EndsAtRoot-reverse (normal n ∷ p) acc h ends = EndsAtRoot-reverse p (normal n ∷ acc) h.1 ends
EndsAtRoot-reverse (root_dir ∷ p) acc h ends = absurd h
EndsAtRoot-reverse (cur_dir ∷ p) acc h ends = absurd h
EndsAtRoot-reverse (parent_dir ∷ p) acc h ends = absurd h

reverse-EndsAtRoot : (p : FilePath) → IsClean p → EndsAtRoot (reverse p)
reverse-EndsAtRoot (root_dir ∷ p) h = EndsAtRoot-reverse p (root_dir ∷ []) h tt
reverse-EndsAtRoot [] h = absurd h
reverse-EndsAtRoot (normal n ∷ p) h = absurd h
reverse-EndsAtRoot (cur_dir ∷ p) h = absurd h
reverse-EndsAtRoot (parent_dir ∷ p) h = absurd h

module _ (canonicalize : FilePath → Option FilePath) where
  found-Deepest :
      (path base tail real : FilePath)
      → path ≡ base ++ tail
      → ArePlain tail
      → NoneBelow canonicalize base tail
      → canonicalize base ≡ some real
      → Deepest canonicalize path (real ++ tail)
  found-Deepest path base tail real e plain h f = record {
    base = base;
    tail = tail;
    real = real;
    splits = e;
    resolves = f;
    plain = plain;
    none_below = h;
    joined = refl;
  }

module _ (canonicalize : FilePath → Option FilePath) (top : FilePath)
    (root_resolves : canonicalize (root_dir ∷ []) ≡ some top) where
  deepest-Deepest :
      (path : FilePath) (existing : List Component) (tail : FilePath)
      → EndsAtRoot existing
      → path ≡ reverse existing ++ tail
      → ArePlain tail
      → NoneBelow canonicalize (reverse existing) tail
      → Deepest canonicalize path (deepest canonicalize path existing tail)
  unfolding deepest
  deepest-Deepest path (normal n ∷ rest) tail ends e plain h =
      elim (Option-cases (canonicalize (reverse (normal n ∷ rest)))) [
        | inl f ↦
            rw (f, deepest)
              (deepest-Deepest path rest (normal n ∷ tail) ends
                (e
                  ∙ ap (λ p. p ++ tail) (reverse-cons (normal n) rest)
                  ∙ append_assoc (reverse rest) (normal n ∷ []) tail)
                plain (below_step canonicalize (normal n) rest tail f h))
        | inr (real, f) ↦ rw (f, deepest) (found-Deepest canonicalize path _ tail real e plain h f)
      ]
  deepest-Deepest path (root_dir ∷ []) tail ends e plain h =
      rw (root_resolves, deepest)
        (found-Deepest canonicalize path _ tail top e plain h root_resolves)
  deepest-Deepest path (root_dir ∷ c ∷ p) tail ends e plain h = absurd ends
  deepest-Deepest path [] tail ends e plain h = absurd ends
  deepest-Deepest path (cur_dir ∷ p) tail ends e plain h = absurd ends
  deepest-Deepest path (parent_dir ∷ p) tail ends e plain h = absurd ends

  -- A clean path resolves through its deepest ancestor that the file system resolves.
  pub canonicalize_deepest-Deepest :
      (path : FilePath)
      → IsClean path
      → Deepest canonicalize path (canonicalize_deepest canonicalize path)
  unfolding canonicalize_deepest
  canonicalize_deepest-Deepest path h =
      deepest-Deepest path (reverse path) [] (reverse-EndsAtRoot path h)
        (sym (append-nil _ ∙ reverse-reverse path)) tt
        (λ mid rest ne e. absurd (ne (append_nil_left mid rest e)))

-- The names of a clean path past one of its ancestors.
tail-AreNames : (base tail : FilePath) → IsClean (base ++ tail) → ArePlain tail → AreNames tail
tail-AreNames [] [] h plain = tt
tail-AreNames [] (normal n ∷ p) h plain = absurd h
tail-AreNames [] (root_dir ∷ p) h plain = absurd plain
tail-AreNames [] (cur_dir ∷ p) h plain = absurd plain
tail-AreNames [] (parent_dir ∷ p) h plain = absurd plain
tail-AreNames (root_dir ∷ base) tail h plain = AreNames-append_right base tail h
tail-AreNames (normal n ∷ p) tail h plain = absurd h
tail-AreNames (cur_dir ∷ p) tail h plain = absurd h
tail-AreNames (parent_dir ∷ p) tail h plain = absurd h

-- The resolved path is clean where what the file system resolves to is.
pub Deepest-IsClean :
    (canonicalize : FilePath → Option FilePath) (path result : FilePath)
    → ((p real : FilePath) → canonicalize p ≡ some real → IsClean real)
    → IsClean path
    → Deepest canonicalize path result
    → IsClean result
Deepest-IsClean canonicalize path result reals h d = rw d.joined (
    IsClean-append d.real d.tail (reals d.base d.real d.resolves)
      (tail-AreNames d.base d.tail (subst IsClean d.splits h) d.plain))
