-- ===== src/Gate/Tests.antt =====
-- Runs of the gate on a small file system, and its theorems there: `/data` is a directory,
-- `/data/secret` is denied, `/data/out` is a link to `/etc`, and nothing else exists.
use zyris_docker.Prelude.{
  ◌≡◌, ◌↔◌, ◌⊎◌, All, Any, refl, subst, Option, none, some, [], ◌∷◌, ok, err, if◌then◌else◌,
  Bool-cases, inl, inr, arith,
}
use zyris_docker.Prelude.Text.{codes, text_eq, is_empty}
use zyris_docker.FilePath.{
  root_dir, normal, FilePath, path_eq, path_starts_with, components, component_eq, split_last, pop,
  push, has_root,
}
use zyris_docker.FilePath.Clean.{IsClean, IsName, IsUnder}
use zyris_docker.Gate.Defs.{
  PathGate, join_like_upstream, gate_root, refuse, canonicalize_deepest, check, is_under,
}
use zyris_docker.Gate.Check.{Allowed, resolved, check_iff, check_verdict}

abbrev slash : FilePath
slash = root_dir ∷ []

abbrev data_dir : FilePath
data_dir = root_dir ∷ normal (codes "data") ∷ []

abbrev secret_dir : FilePath
secret_dir = root_dir ∷ normal (codes "data") ∷ normal (codes "secret") ∷ []

abbrev out_link : FilePath
out_link = root_dir ∷ normal (codes "data") ∷ normal (codes "out") ∷ []

abbrev secret_key : FilePath
secret_key = root_dir ∷ normal (codes "data") ∷ normal (codes "secret") ∷ normal (codes "key") ∷ []

abbrev etc_dir : FilePath
etc_dir = root_dir ∷ normal (codes "etc") ∷ []

-- One entry of the disk: `path` is really `real`.
entry : FilePath → FilePath → FilePath → Option FilePath → Option FilePath
entry p path real rest = if path_eq p path then some real else rest

small_disk : FilePath → Option FilePath
small_disk p =
    entry p slash slash
      (entry p data_dir data_dir (entry p secret_dir secret_dir (entry p out_link etc_dir none)))

abbrev data_gate : PathGate
data_gate = record { roots = data_dir ∷ []; deny = secret_dir ∷ [] }

abbrev new_file : FilePath
new_file = root_dir ∷ normal (codes "data") ∷ normal (codes "new") ∷ normal (codes "a.txt") ∷ []

new_file_passes : check small_disk data_gate (codes "./new//x/../a.txt") ≡ ok new_file
unfolding check canonicalize_deepest join_like_upstream gate_root components split_last pop push
    has_root path_eq path_starts_with component_eq is_under small_disk entry
new_file_passes = refl

link_out_refused :
    check small_disk data_gate (codes "out/hosts")
    ≡ err (refuse data_gate (codes "out/hosts") (codes "is outside the allowed roots"))
unfolding check canonicalize_deepest join_like_upstream gate_root components split_last pop push
    has_root path_eq path_starts_with component_eq is_under small_disk entry
link_out_refused = refl

secret_refused :
    check small_disk data_gate (codes "/data/../data/secret/key")
    ≡ err (refuse data_gate (codes "/data/../data/secret/key") (codes "is on the deny list"))
unfolding check canonicalize_deepest join_like_upstream gate_root components split_last pop push
    has_root path_eq path_starts_with component_eq is_under small_disk entry
secret_refused = refl

data-IsName : IsName (codes "data")
unfolding text_eq is_empty
data-IsName = record {
  nonempty = refl;
  not_dot = refl;
  not_dotdot = refl;
  no_slash = (refl, (refl, (refl, (refl, tt))));
}

secret-IsName : IsName (codes "secret")
unfolding text_eq is_empty
secret-IsName = record {
  nonempty = refl;
  not_dot = refl;
  not_dotdot = refl;
  no_slash = (refl, (refl, (refl, (refl, (refl, (refl, tt))))));
}

etc-IsName : IsName (codes "etc")
unfolding text_eq is_empty
etc-IsName = record {
  nonempty = refl;
  not_dot = refl;
  not_dotdot = refl;
  no_slash = (refl, (refl, (refl, tt)));
}

none_not_some : (q : FilePath) → none ≡ some q → ⊥
none_not_some q e = cc

IsClean-entry :
    (p path real : FilePath) (rest : Option FilePath) (q : FilePath)
    → IsClean real
    → (rest ≡ some q → IsClean q)
    → entry p path real rest ≡ some q
    → IsClean q
unfolding entry
IsClean-entry p path real rest q h k e = elim (Bool-cases (path_eq p path)) [
  | inl t ↦ let same : real ≡ q = ground (arith, t) in subst IsClean same h
  | inr t ↦ k (ground (arith, t))
]

small_disk-IsClean : (p q : FilePath) → small_disk p ≡ some q → IsClean q
unfolding small_disk
small_disk-IsClean p q = IsClean-entry p slash slash _ q tt (
    IsClean-entry p data_dir data_dir _ q (data-IsName, tt)
      (IsClean-entry p secret_dir secret_dir _ q (data-IsName, (secret-IsName, tt))
        (IsClean-entry p out_link etc_dir none q (etc-IsName, tt)
          (λ e. absurd (none_not_some q e)))))

check_iff_example : (check small_disk data_gate (codes "./new//x/../a.txt") ≡ ok new_file) ↔ (
    (new_file ≡ resolved small_disk data_gate (codes "./new//x/../a.txt"))
    × Allowed small_disk data_gate new_file)
check_iff_example = check_iff small_disk data_gate (codes "./new//x/../a.txt") new_file

check_verdict_example :
    (Any (IsUnder (resolved small_disk data_gate (codes "secret/key"))) (secret_dir ∷ [])
      × (check small_disk data_gate (codes "secret/key")
          ≡ err (refuse data_gate (codes "secret/key") (codes "is on the deny list"))))
    ⊎ (All (λ d. ¬ IsUnder (resolved small_disk data_gate (codes "secret/key")) d) (secret_dir ∷ [])
        × All
            (λ r. ¬ IsUnder (resolved small_disk data_gate (codes "secret/key")) r)
            (data_dir ∷ [])
        × (check small_disk data_gate (codes "secret/key")
            ≡ err (refuse data_gate (codes "secret/key") (codes "is outside the allowed roots"))))
    ⊎ (Allowed small_disk data_gate (resolved small_disk data_gate (codes "secret/key"))
        × (check small_disk data_gate (codes "secret/key")
            ≡ ok (resolved small_disk data_gate (codes "secret/key"))))
check_verdict_example = check_verdict small_disk data_gate (codes "secret/key")
