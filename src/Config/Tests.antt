-- ===== src/Config/Tests.antt =====
-- Variables that are set, and the theorems on them.
use zyris_docker.Prelude.{◌≡◌, refl, none, some, [], ◌∷◌, if◌then◌else◌}
use zyris_docker.Prelude.Text.{codes, text_eq, split, is_empty, trim, trim_matches, is_whitespace}
use zyris_docker.Runtime.Credentials.{Env, nonblank}
use zyris_docker.Runtime.Config.{parse_list}
use zyris_docker.Config.Defs.{parse_u64, digits_value, env_str, env_csv}

abbrev env : Env
env name =
    if text_eq name (codes "ZYRISD_EXEC_TIMEOUT_SECS")
    then some (codes "45")
    else if text_eq name (codes "ZYRISD_MAX_OUTPUT_BYTES")
    then some (codes "0")
    else if text_eq name (codes "ZYRISD_FILE_ROOTS")
    then some (codes "/data, ,/srv ")
    else none

roots_read : env_csv env (codes "ZYRISD_FILE_ROOTS") ≡ codes "/data" ∷ codes "/srv" ∷ []
unfolding env_csv env_str nonblank text_eq parse_list split is_empty trim trim_matches is_whitespace
roots_read = refl

too_many_digits : parse_u64 (codes "18446744073709551616") ≡ none
unfolding parse_u64 digits_value
too_many_digits = refl
