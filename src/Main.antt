-- ===== src/Main.antt =====
-- The start of the program, src/main.rs: the scopes it asks for, and the roots and the deny list of
-- the gate.
pub mod Secret
pub mod Scopes
pub mod Start
pub mod Failures
pub mod Guards
pub mod Program
mod ProgramTests
mod StartTests
mod Tests
use zyris_docker.Prelude.{Bool, true, false, Option, none, some, List, [], ◌∷◌, map, if◌then◌else◌}
use zyris_docker.Prelude.Text.{Text, codes, text_eq, join_with}
use zyris_docker.FilePath.{FilePath, root_dir}
use zyris_docker.Runtime.Credentials.{Env}
use zyris_docker.Runtime.Store.{credential_dir}

-- `SCOPES`
abbrev pub scopes_asked : List Text
scopes_asked =
    codes "agents:read"
    ∷ codes "sessions:write"
    ∷ codes "sessions:read"
    ∷ codes "projects:read"
    ∷ codes "jobs:write"
    ∷ []

abbrev set_when_unset : Option Text → Text → Option Text
set_when_unset none value = some value
set_when_unset (some old) value = some old

-- The environment once `main` has set `$ZYRIS_SCOPES` where it was not set.
unfoldable pub settle_scopes : Env → Env
settle_scopes env name =
    if text_eq name (codes "ZYRIS_SCOPES")
    then set_when_unset (env name) (join_with (codes ",") scopes_asked)
    else env name

abbrev or_whole_disk : List FilePath → List FilePath
or_whole_disk [] = (root_dir ∷ []) ∷ []
or_whole_disk (root ∷ roots) = root ∷ roots

-- `resolve_roots`: the roots and the deny list, for the roots that the configuration names.
unfoldable pub resolve_roots : (Text → FilePath) → Env → List Text → List FilePath × List FilePath
resolve_roots read_path env file_roots = (
  or_whole_disk (map read_path file_roots),
  read_path (codes "/run/secrets")
      ∷ read_path (codes "/var/run/secrets")
      ∷ credential_dir read_path env
      ∷ [],
)
