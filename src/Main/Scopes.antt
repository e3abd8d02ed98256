-- ===== src/Main/Scopes.antt =====
-- The scopes of a node.
use zyris_docker.Prelude.{◌≡◌, refl, true, Option, none, some, Option-cases, inl, inr, List}
use zyris_docker.Prelude.Text.{Text, codes, text_eq, join_with, trim, split, is_empty, trim_matches}
use zyris_docker.Runtime.Credentials.{Env}
use zyris_docker.Runtime.Config.{from_env, parse_list}
use zyris_docker.Main.{scopes_asked, settle_scopes}

abbrev pub wanted : Option Text → List Text
wanted none = scopes_asked
wanted (some raw) = parse_list raw

-- The node asks for the five scopes that `main` names where `$ZYRIS_SCOPES` is not set, and for those
-- of the variable where it is; either way `scopes_pinned` is `true`, so it does not tell who decided.
pub scopes_settled :
    (server_url : Text) (machine_name : Option Text) (env : Env)
    → let config = from_env server_url machine_name (settle_scopes env) in
      (config.scopes ≡ wanted (env (codes "ZYRIS_SCOPES"))) × (config.scopes_pinned ≡ true)
unfolding from_env settle_scopes parse_list text_eq join_with trim split is_empty trim_matches
scopes_settled server_url machine_name env = elim (Option-cases (env (codes "ZYRIS_SCOPES"))) [
  | inl h ↦ rw h (refl, refl)
  | inr (raw, h) ↦ rw h (refl, refl)
]
