-- ===== src/Runtime/Config.antt =====
-- `RunConfig` and what it reads, src/runtime/runner.rs. Durations are in milliseconds.
use zyris_docker.Prelude.{ℕ, Bool, true, false, not, Option, none, some, List, [], map, filterb}
use zyris_docker.Prelude.Text.{Text, codes, trim, is_empty, split}
use zyris_docker.Runtime.Credentials.{Env, nonblank}

pub record RunConfig : Type 0 where
  pub url : Text
  pub node_name : Text
  pub profile : Text
  pub scopes : List Text
  pub scopes_pinned : Bool
  pub backoff_min : ℕ
  pub backoff_max : ℕ
  pub stable_after : ℕ

abbrev pub or_else {ℓ} : {A : Type ℓ} → Option A → A → A
or_else none fallback = fallback
or_else (some a) fallback = a

abbrev pub is_some {ℓ} : {A : Type ℓ} → Option A → Bool
is_some none = false
is_some (some a) = true

-- `RunConfig::default`. The default URL and the machine's name are the library's.
unfoldable pub default_config : Text → Option Text → RunConfig
default_config server_url machine_name = record {
  url = server_url;
  node_name = or_else machine_name (codes "zyris-node");
  profile = codes "default";
  scopes = [];
  scopes_pinned = false;
  backoff_min = 1000;
  backoff_max = 30000;
  stable_after = 30000;
}

-- `env_or`
unfoldable pub env_or : Env → Text → Text → Text
unfolding nonblank
env_or env key fallback = or_else (nonblank (env key)) fallback

-- `raw.split(',').map(str::trim).filter(|s| !s.is_empty())`
unfoldable pub parse_list : Text → List Text
parse_list raw = filterb (λ s. not (is_empty s)) (map trim (split b',' raw))

abbrev parsed_scopes : Option Text → Option (List Text)
parsed_scopes none = none
parsed_scopes (some raw) = some (parse_list raw)

-- `RunConfig::from_env`
unfoldable pub from_env : Text → Option Text → Env → RunConfig
unfolding env_or
from_env server_url machine_name env =
    let fallback = default_config server_url machine_name in
    let scopes = parsed_scopes (env (codes "ZYRIS_SCOPES")) in
    record fallback {
      url = env_or env (codes "ZYRIS_SERVER_URL") fallback.url;
      node_name = env_or env (codes "ZYRIS_NODE_NAME") fallback.node_name;
      profile = env_or env (codes "ZYRIS_PROFILE") fallback.profile;
      scopes_pinned = is_some scopes;
      scopes = or_else scopes fallback.scopes;
    }
