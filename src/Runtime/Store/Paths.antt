-- ===== src/Runtime/Store/Paths.antt =====
-- The temporary file beside a credential file is another file.
use zyris_docker.Prelude.{
  ℕ, false, ◌≡◌, refl, ap, sym, ◌∙◌, Option, none, some, [], ◌∷◌, ◌++◌, arith, Bool-cases, inl, inr,
}
use zyris_docker.Prelude.Text.{Text, codes}
use zyris_docker.FilePath.{FilePath, Component, normal, split_last, path_eq, push}
use zyris_docker.FilePath.Clean.{path_eq_sound, split_last-append}
use zyris_docker.Runtime.Credentials.{Env}
use zyris_docker.Runtime.Slug.{slugify, file_name}
use zyris_docker.Runtime.Store.Errors.{credential_dir, for_server}
use zyris_docker.Runtime.Store.Disk.{file_stem, with_extension, temp_of}

abbrev last_of : Text → Option ℕ
last_of [] = none
last_of (c ∷ []) = some c
last_of (c ∷ d ∷ t) = last_of (d ∷ t)

last_of-append : (t : Text) (c : ℕ) (u : Text) → last_of (t ++ c ∷ u) ≡ last_of (c ∷ u)
last_of-append [] c u = refl
last_of-append (a ∷ []) c u = refl
last_of-append (a ∷ b ∷ t) c u = last_of-append (b ∷ t) c u

json_ends :
    (slug profile_slug : Text)
    → last_of (slug ++ (codes "-" ++ (profile_slug ++ codes ".json"))) ≡ some b'n'
json_ends slug profile_slug =
    last_of-append slug b'-' _ ∙ last_of-append (b'-' ∷ profile_slug) b'.' (codes "json")

same_last : (dir : FilePath) (c d : Component) → dir ++ c ∷ [] ≡ dir ++ d ∷ [] → c ≡ d
same_last dir c d e =
    ground (arith, split_last-append dir c, split_last-append dir d, ap split_last e)

n_not_p : ◌≡◌ {A = Option ℕ} (some b'n') (some b'p') → ⊥
n_not_p e = ground arith

-- A file whose name ends in `n` is not its own temporary file.
temp_apart :
    (dir : FilePath) (name : Text)
    → last_of name ≡ some b'n'
    → path_eq (dir ++ normal name ∷ []) (temp_of (dir ++ normal name ∷ [])) ≡ false
unfolding with_extension
temp_apart dir name ends =
    elim (Bool-cases (path_eq (dir ++ normal name ∷ []) (temp_of (dir ++ normal name ∷ [])))) [
      | inr e ↦ e
      | inl e ↦ absurd (clash (path_eq_sound _ _ e ∙ as_temp))
    ]
  where
    as_temp :
        temp_of (dir ++ normal name ∷ []) ≡ dir ++ normal (file_stem name ++ codes ".tmp") ∷ []
    as_temp = rw (split_last-append dir (normal name), with_extension)

    clash : dir ++ normal name ∷ [] ≡ dir ++ normal (file_stem name ++ codes ".tmp") ∷ [] → ⊥
    clash e =
        let names : name ≡ file_stem name ++ codes ".tmp" = cc (same_last dir _ _ e) in
        let ends' : last_of (file_stem name ++ codes ".tmp") ≡ some b'p' =
          last_of-append (file_stem name) b'.' (codes "tmp") in
        n_not_p (sym ends ∙ ap last_of names ∙ ends')

-- The file of a deployment and profile is never its own temporary file.
pub for_server-temp :
    (read_path : Text → FilePath) (env : Env) (server_url profile : Text)
    → let path = for_server read_path env server_url profile in path_eq path (temp_of path) ≡ false
unfolding for_server push
for_server-temp read_path env server_url profile =
    temp_apart (credential_dir read_path env) (file_name server_url profile) name_ends
  where
    name_ends : last_of (file_name server_url profile) ≡ some b'n'
    name_ends = unfold file_name in json_ends (slugify server_url) (slugify profile)
