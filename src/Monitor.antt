-- ===== src/Monitor.antt =====
-- The `monitor` capability, src/monitor.rs: its methods over the readers of /proc, the `docker` and
-- `kubectl` programs and the JSON parser.
pub mod Logs
pub mod Errors
mod Tests
use zyris_docker.Prelude.{
  ℕ, Bool, true, false, Option, none, List, [], ◌∷◌, ◌++◌, ltb, if◌then◌else◌, Result, ok, err,
}
use zyris_docker.Prelude.Text.{Text, codes, trim}
use zyris_docker.Wire.{WireError, other}
use zyris_docker.Runtime.Store.{decimal_digits}
use zyris_docker.Json.{Value}
use zyris_docker.Cli.{Output, Command}
use zyris_docker.System.{
  ProcessInfo, process_running, process_list, F32, ProcFiles, SystemSnapshot, system_snapshot,
}
use zyris_docker.Docker.{
  ContainerInfo, run_docker, list_containers, container_info, container_running,
}
use zyris_docker.K8s.{PodInfo, NodeInfo, run_kubectl, pods, nodes, available}

-- `map_err` of src/monitor.rs.
unfoldable pub monitor_error : Text → WireError
monitor_error e = record { code = other (codes "monitor"); message = e }

pub record ActionResult : Type 0 where
  pub ok : Bool
  pub output : Text

abbrev pub action_of : (List ℕ → Text) → Result Text Output → ActionResult
action_of decode (err e) = record { ok = false; output = e }
action_of decode (ok out) =
    if out.success
    then record { ok = true; output = trim (decode out.stdout) }
    else record { ok = false; output = trim (decode out.stderr) }

-- `run_action`
unfoldable pub run_action : (List ℕ → Text) → Command → List Text → ActionResult
run_action decode docker args = action_of decode (docker args)

-- A `u64` in decimal.
abbrev pub decimal_u64 : ℕ → Text
decimal_u64 n = decimal_digits 20 n

-- The arguments of `docker_logs`.
unfoldable pub logs_arguments : Text → ℕ → Bool → List Text
logs_arguments selector tail follow =
    codes "logs"
    ∷ ((if ltb 0 tail then codes "--tail" ∷ decimal_u64 tail ∷ [] else [])
        ++ ((if follow then codes "--follow" ∷ [] else []) ++ selector ∷ []))

-- The methods of the trait `Monitor`.
pub data Call : Type 0 where
  get_snapshot get_processes list_docker list_pods list_nodes has_k8s : Call
  is_process_running get_container is_container_running start restart : Text → Call
  logs : Text → ℕ → Bool → Call

-- What the system answers in the course of a call.
pub record World : Type 0 where
  pub files : ProcFiles
  pub docker : Command
  pub kubectl : Command

module _ (f32 : F32) (whole_secs : Text → Option ℕ) (decode : List ℕ → Text)
    (from_str : Text → Option Value) (from_slice : List ℕ → Result Text Value) where
  pub data Reply : Type 0 where
    snapshot : SystemSnapshot f32 → Reply
    processes : List ProcessInfo → Reply
    flag : Bool → Reply
    containers : List ContainerInfo → Reply
    container : ContainerInfo → Reply
    action : ActionResult → Reply
    pod_list : List PodInfo → Reply
    node_list : List NodeInfo → Reply

  -- `.map_err(map_err)`
  abbrev pub answered {ℓ} : {A : Type ℓ} → (A → Reply) → Result Text A → Result WireError Reply
  answered reply (ok a) = ok (reply a)
  answered reply (err e) = err (monitor_error e)

  -- `impl Monitor for MonitorNode`
  unfoldable pub serve : World → Call → Result WireError Reply
  unfolding run_action
  serve w get_snapshot = ok (snapshot (system_snapshot f32 whole_secs decode w.files))
  serve w get_processes = ok (processes (process_list decode w.files.entries))
  serve w (is_process_running name) =
      ok (flag (process_running (process_list decode w.files.entries) name))
  serve w list_docker = answered containers (list_containers from_str (run_docker decode w.docker))
  serve w (get_container selector) =
      answered container (container_info from_str (run_docker decode w.docker) selector)
  serve w (is_container_running selector) =
      ok (flag (container_running from_str (run_docker decode w.docker) selector))
  serve w (start selector) =
      ok (action (run_action decode w.docker (codes "start" ∷ selector ∷ [])))
  serve w (restart selector) =
      ok (action (run_action decode w.docker (codes "restart" ∷ selector ∷ [])))
  serve w (logs selector tail follow) =
      ok (action (run_action decode w.docker (logs_arguments selector tail follow)))
  serve w list_pods = answered pod_list (pods (run_kubectl decode from_slice w.kubectl))
  serve w list_nodes = answered node_list (nodes (run_kubectl decode from_slice w.kubectl))
  serve w has_k8s = ok (flag (available (run_kubectl decode from_slice w.kubectl)))
