-- ===== src/Gate/Check.antt =====
-- `PathGate::check`: which paths it lets through, and what it answers to the others.
use zyris_docker.Prelude.{
  true, false, ◌≡◌, refl, sym, subst, ◌∙◌, ◌↔◌, ◌⊎◌, inl, inr, Option, some, [], ◌∷◌, arith,
  Bool-cases, append-nil, ok, err, any, All, Any, Any-any, any_of_Any, All-not_any, not_any_of_All,
}
use zyris_docker.Prelude.Text.{Text, codes}
use zyris_docker.FilePath.{root_dir, FilePath, path_starts_with}
use zyris_docker.FilePath.Clean.{
  IsClean, IsUnder, path_eq_sound, starts_with_sound, starts_with_of_IsUnder,
}
use zyris_docker.FilePath.Display.{display}
use zyris_docker.Gate.Defs.{
  PathGate, is_under, join_like_upstream, gate_root, refuse, canonicalize_deepest, check,
}
use zyris_docker.Gate.Join.{join-IsClean, join-display}
use zyris_docker.Gate.Resolve.{canonicalize_deepest-Deepest, Deepest-IsClean}

err_not_ok {ℓ} : {E A : Type ℓ} {e : E} {a : A} → err e ≡ ok a → ⊥
err_not_ok h = cc

is_under_sound : (p base : FilePath) → is_under p base ≡ true → IsUnder p base
unfolding is_under
is_under_sound p base h = elim (Bool-cases (path_starts_with p base)) [
  | inl e ↦ starts_with_sound p base e
  | inr e ↦ ([], path_eq_sound p base (ground arith) ∙ sym (append-nil base))
]

is_under_whole : (p base : FilePath) → IsUnder p base → is_under p base ≡ true
unfolding is_under
is_under_whole p base u = ground (arith, starts_with_of_IsUnder p base u)

module _ (canonicalize : FilePath → Option FilePath) (gate : PathGate) where
  -- The path that the gate judges.
  abbrev pub resolved : Text → FilePath
  resolved requested =
      canonicalize_deepest canonicalize (join_like_upstream (gate_root gate) requested)

  -- Under one of the roots and under nothing on the deny list.
  abbrev pub Allowed : FilePath → Type 0
  Allowed p = Any (IsUnder p) gate.roots × All (λ d. ¬ IsUnder p d) gate.deny

  passed_tests :
      (requested : Text) (p : FilePath)
      → check canonicalize gate requested ≡ ok p
      → (p ≡ resolved requested)
        × (any (is_under (resolved requested)) gate.deny ≡ false)
        × (any (is_under (resolved requested)) gate.roots ≡ true)
  unfolding check
  passed_tests requested p e = ground arith

  Allowed-tests :
      (p : FilePath)
      → any (is_under p) gate.deny ≡ false
      → any (is_under p) gate.roots ≡ true
      → Allowed p
  Allowed-tests p denied inside = (
    Any-any (is_under p) (is_under_sound p) gate.roots inside,
    All-not_any (is_under p) (is_under_whole p) gate.deny denied,
  )

  accepts :
      (requested : Text)
      → any (is_under (resolved requested)) gate.deny ≡ false
      → any (is_under (resolved requested)) gate.roots ≡ true
      → check canonicalize gate requested ≡ ok (resolved requested)
  unfolding check
  accepts requested denied inside = rw (denied, inside)

  -- The gate answers with a path exactly when that path is the resolved one and is, by whole
  -- components, under an allowed root and under no denied directory.
  pub check_iff :
      (requested : Text) (p : FilePath)
      → (check canonicalize gate requested ≡ ok p) ↔ ((p ≡ resolved requested) × Allowed p)
  check_iff requested p = (passed, passes)
    where
      passed : check canonicalize gate requested ≡ ok p → (p ≡ resolved requested) × Allowed p
      passed e =
          let (same, denied, inside) = passed_tests requested p e in
          (same, rw same (Allowed-tests (resolved requested) denied inside))

      passes : (p ≡ resolved requested) × Allowed p → check canonicalize gate requested ≡ ok p
      passes (same, allowed) = rw same (
          accepts requested
            (not_any_of_All (is_under _) (is_under_sound _) gate.deny
              (subst (λ q. All (λ d. ¬ IsUnder q d) gate.deny) same allowed.1))
            (any_of_Any (is_under _) (is_under_whole _) gate.roots
              (subst (λ q. Any (IsUnder q) gate.roots) same allowed.0)))

  -- What is judged is the resolved path, by whole components. Under a denied directory it is refused
  -- for that, whatever the roots are; under no denied directory and no root it is refused as outside;
  -- and in every other case it is what the gate answers.
  pub check_verdict :
      (requested : Text)
      → (Any (IsUnder (resolved requested)) gate.deny
          × (check canonicalize gate requested
              ≡ err (refuse gate requested (codes "is on the deny list"))))
        ⊎ (All (λ d. ¬ IsUnder (resolved requested) d) gate.deny
            × All (λ r. ¬ IsUnder (resolved requested) r) gate.roots
            × (check canonicalize gate requested
                ≡ err (refuse gate requested (codes "is outside the allowed roots"))))
        ⊎ (Allowed (resolved requested)
            × (check canonicalize gate requested ≡ ok (resolved requested)))
  unfolding check
  check_verdict requested =
      let p = resolved requested in
      elim (Bool-cases (any (is_under p) gate.deny)) [
        | inl d ↦ inl (Any-any (is_under p) (is_under_sound p) gate.deny d, rw d refl)
        | inr d ↦ elim (Bool-cases (any (is_under p) gate.roots)) [
          | inl r ↦ inr (inr (Allowed-tests p d r, accepts requested d r))
          | inr r ↦ inr (
              inl (
                All-not_any (is_under p) (is_under_whole p) gate.deny d,
                All-not_any (is_under p) (is_under_whole p) gate.roots r,
                rw (d, r) refl,
              ))
        ]
      ]

  -- With clean roots and a file system whose real paths are clean and valid text, the path that is
  -- written out, and joined there under any root, is the very path that the gate judged.
  pub check_reopens :
      (requested : Text) (p root top : FilePath)
      → IsClean (gate_root gate)
      → canonicalize (root_dir ∷ []) ≡ some top
      → ((q real : FilePath) → canonicalize q ≡ some real → IsClean real)
      → check canonicalize gate requested ≡ ok p
      → (join_like_upstream root (display p) ≡ p) × IsClean p
  check_reopens requested p root top clean top_resolves reals e =
      (join-display root p p-IsClean, p-IsClean)
    where
      joined-IsClean : IsClean (join_like_upstream (gate_root gate) requested)
      joined-IsClean = join-IsClean (gate_root gate) requested clean

      p-IsClean : IsClean p
      p-IsClean = rw (passed_tests requested p e).0 (
          Deepest-IsClean canonicalize _ _ reals joined-IsClean
            (canonicalize_deepest-Deepest canonicalize top top_resolves _ joined-IsClean))
