-- ===== src/Main/Tests.antt =====
-- A node with its credential directory in place, and the theorems on it.
use zyris_docker.Prelude.{◌≡◌, refl, Option, none, some, [], ◌∷◌, ok, if◌then◌else◌}
use zyris_docker.Prelude.Text.{codes, text_eq, split, is_empty}
use zyris_docker.FilePath.{
  FilePath, root_dir, normal, components, push, pop, has_root, split_last, path_eq,
  path_starts_with, component_eq, piece_components, piece_component,
}
use zyris_docker.Runtime.Credentials.{Env}
use zyris_docker.Runtime.Store.{credential_dir}
use zyris_docker.Gate.{
  is_under, new_gate, gate_root, join_like_upstream, canonicalize_deepest, check,
}
use zyris_docker.Main.{resolve_roots}
use zyris_docker.Main.Secret.{node_gate}

abbrev bare : Env
bare name = none

-- Every path that is asked for exists and is no link.
abbrev plain_disk : FilePath → Option FilePath
plain_disk p = some p

abbrev hosts : FilePath
hosts = root_dir ∷ normal (codes "etc") ∷ normal (codes "hosts") ∷ []

abbrev state_dir : FilePath
state_dir =
    root_dir ∷ normal (codes "var") ∷ normal (codes "lib") ∷ normal (codes "zyris-docker") ∷ []

state_dir_resolves : plain_disk (credential_dir components bare) ≡ some state_dir
unfolding credential_dir components split text_eq is_empty piece_components piece_component
state_dir_resolves = refl

hosts_pass :
    check plain_disk (node_gate plain_disk components bare []) (codes "etc/hosts") ≡ ok hosts
unfolding resolve_roots credential_dir check canonicalize_deepest join_like_upstream gate_root
    new_gate components split text_eq is_empty piece_components piece_component split_last pop push
    has_root path_eq path_starts_with component_eq is_under
hosts_pass = refl

-- With `/var/lib` a link to `/data` and the credential directory made only after the gate, the gate
-- approves a path to the credential file.
abbrev relinked : FilePath → Option FilePath
relinked p =
    if path_eq p (root_dir ∷ [])
    then some p
    else if path_eq p state_dir
    then some (root_dir ∷ normal (codes "data") ∷ normal (codes "zyris-docker") ∷ [])
    else none

abbrev before_save : FilePath → Option FilePath
before_save p = if path_eq p (root_dir ∷ []) then some p else none

late_directory_passes :
    check relinked (node_gate before_save components bare []) (codes "var/lib/zyris-docker/a.json")
    ≡ ok (
        root_dir
        ∷ normal (codes "data")
        ∷ normal (codes "zyris-docker")
        ∷ normal (codes "a.json")
        ∷ [])
unfolding resolve_roots credential_dir check canonicalize_deepest join_like_upstream gate_root
    new_gate components split text_eq is_empty piece_components piece_component split_last pop push
    has_root path_eq path_starts_with component_eq is_under
late_directory_passes = refl
