-- ===== src/Config/Defs.antt =====
-- `Config` of src/config.rs and the readers of its variables.
use zyris_docker.Prelude.{
  ℕ, ◌+◌, ◌-◌, ◌*◌, ◌^◌, Bool, false, ◌&&◌, ◌||◌, Option, none, some, List, [], ◌∷◌, ltb, leb, ◌==◌,
  if◌then◌else◌,
}
use zyris_docker.Prelude.Text.{Text, codes, text_eq, is_empty}
use zyris_docker.Runtime.Credentials.{Env, nonblank}
use zyris_docker.Runtime.Config.{or_else, parse_list}

-- The digits of `str::parse`, after those read into `acc`.
unfoldable pub digits_value : ℕ → Text → Option ℕ
digits_value acc [] = some acc
digits_value acc (c ∷ s) =
    let rest = digits_value (acc * 10 + (c - b'0')) s in
    if leb b'0' c && leb c b'9' then rest else none

abbrev below : ℕ → Option ℕ → Option ℕ
below bound none = none
below bound (some v) = if ltb v bound then some v else none

-- `str::parse::<u64>()`: a sign `+` and digits, below 2 ^ 64.
unfoldable pub parse_u64 : Text → Option ℕ
unfolding digits_value
parse_u64 [] = none
parse_u64 (c ∷ s) =
    if c == b'+'
    then (if is_empty s then none else below (2 ^ 64) (digits_value 0 s))
    else below (2 ^ 64) (digits_value 0 (c ∷ s))

module _ (env : Env) where
  -- `env_str`
  unfoldable pub env_str : Text → Option Text
  env_str name = nonblank (env name)

  abbrev switched_on : Option Text → Bool
  switched_on none = false
  switched_on (some v) =
      text_eq v (codes "1")
      || text_eq v (codes "true")
      || text_eq v (codes "yes")
      || text_eq v (codes "on")

  -- `env_bool`
  unfoldable pub env_bool : Text → Bool
  unfolding env_str
  env_bool name = switched_on (env_str name)

  abbrev listed : Option Text → List Text
  listed none = []
  listed (some raw) = parse_list raw

  -- `env_csv`
  unfoldable pub env_csv : Text → List Text
  unfolding env_str
  env_csv name = listed (env_str name)

  abbrev pub parsed : Option Text → Option ℕ
  parsed none = none
  parsed (some v) = parse_u64 v

  -- `env_duration_secs`, in seconds.
  unfoldable pub env_duration_secs : Text → ℕ → ℕ
  unfolding env_str
  env_duration_secs name fallback = or_else (parsed (env_str name)) fallback

  abbrev positive : Option ℕ → Option ℕ
  positive none = none
  positive (some v) = if ltb 0 v then some v else none

  -- `max_output_bytes`; a `usize` has 64 bits.
  unfoldable pub max_output_bytes : ℕ
  unfolding env_str
  max_output_bytes = or_else (positive (parsed (env_str (codes "ZYRISD_MAX_OUTPUT_BYTES")))) 262144

-- `Config`; times in seconds.
pub record Config : Type 0 where
  pub monitor_interval : ℕ
  pub watch_processes : List Text
  pub watch_containers : List Text
  pub watch_k8s : Bool
  pub heal_agent_id : Option Text
  pub heal_project_id : Option Text
  pub heal_preamble : Text
  pub file_roots : List Text
  pub exec_timeout : ℕ

unfoldable pub default_preamble : Text
default_preamble =
    codes
      "You are the self-healing incident responder for this container node. An incident was detected on the node's system, Docker or Kubernetes state. Diagnose the root cause with the node's `monitor` and `exec` capabilities, resolve it if you can (restart a stopped service or container, recover a pod), and then report back concisely: what broke, what you found, what you did, and what remains."

-- `Config::from_env`
unfoldable pub config_from_env : Env → Config
unfolding env_str env_bool env_csv env_duration_secs
config_from_env env = record {
  monitor_interval = env_duration_secs env (codes "ZYRISD_MONITOR_INTERVAL_SECS") 30;
  watch_processes = env_csv env (codes "ZYRISD_WATCH_PROCESSES");
  watch_containers = env_csv env (codes "ZYRISD_WATCH_CONTAINERS");
  watch_k8s = env_bool env (codes "ZYRISD_WATCH_K8S");
  heal_agent_id = env_str env (codes "ZYRISD_HEAL_AGENT_ID");
  heal_project_id = env_str env (codes "ZYRISD_HEAL_PROJECT_ID");
  heal_preamble = or_else (env_str env (codes "ZYRISD_HEAL_PREAMBLE")) default_preamble;
  file_roots = env_csv env (codes "ZYRISD_FILE_ROOTS");
  exec_timeout = env_duration_secs env (codes "ZYRISD_EXEC_TIMEOUT_SECS") 120;
}
