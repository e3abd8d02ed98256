-- ===== src/K8s/PodJson.antt =====
-- What a cluster keeps of a pod, the JSON that it writes of it, and what the program is to say of it.
use zyris_docker.Prelude.{
  ℕ, suc, ◌+◌, ◌%◌, ◌^◌, All, Bool, Option, none, some, List, [], ◌∷◌, ◌++◌, length, if◌then◌else◌,
}
use zyris_docker.Prelude.Text.{Text, codes}
use zyris_docker.Runtime.Config.{or_else}
use zyris_docker.Runtime.Store.{decimal}
use zyris_docker.Json.{
  Value, boolean, number, string, array, object, Values, empty_array, next_value, Entries,
  empty_object, next_entry,
}
use zyris_docker.K8s.Defs.{PodInfo, last_entry, first_some}
use zyris_docker.K8s.Written.{IsOther, with_more}

-- What a cluster keeps of a container and of a pod, and what else it writes of each. What stands as an option is left out where it is
-- `none`, as the node of a pod that is not scheduled and the containers of one that no node has taken.
pub data ContainerState : Type 0 where
  waiting : Option Text → ContainerState
  running terminated : ContainerState

pub record ContainerStatus : Type 0 where
  pub is_up : Bool
  pub restart_count : ℕ
  pub state : ContainerState
  pub more : Entries

pub record PodStatus : Type 0 where
  pub pod_namespace : Text
  pub pod_name : Text
  pub node_name : Option Text
  pub phase : Text
  pub pod_reason : Option Text
  pub containers : Option (List ContainerStatus)
  pub more_metadata : Entries
  pub more_spec : Entries
  pub more_status : Entries
  pub more_top : Entries

abbrev pub optional : Text → Option Value → Entries → Entries
optional name none entries = entries
optional name (some v) entries = next_entry name v entries

abbrev pub text_json : Option Text → Option Value
text_json none = none
text_json (some t) = some (string t)

abbrev one_entry : Text → Value → Value
one_entry name v = object (next_entry name v empty_object)

abbrev pub state_json : ContainerState → Value
state_json (waiting reason) =
    one_entry (codes "waiting") (object (optional (codes "reason") (text_json reason) empty_object))
state_json running =
    one_entry (codes "running")
      (one_entry (codes "startedAt") (string (codes "2026-01-01T00:00:00Z")))
state_json terminated =
    one_entry (codes "terminated") (one_entry (codes "reason") (string (codes "Completed")))

abbrev pub container_entries : ContainerStatus → Entries
container_entries c = next_entry (codes "ready") (boolean c.is_up) (
    next_entry (codes "restartCount") (number c.restart_count)
      (next_entry (codes "state") (state_json c.state) empty_object))

abbrev pub container_json : ContainerStatus → Value
container_json c = object (with_more c.more (container_entries c))

abbrev pub containers_json : List ContainerStatus → Values
containers_json [] = empty_array
containers_json (c ∷ cs) = next_value (container_json c) (containers_json cs)

abbrev pub statuses_json : Option (List ContainerStatus) → Option Value
statuses_json none = none
statuses_json (some cs) = some (array (containers_json cs))

abbrev pub status_entries : PodStatus → Entries
status_entries p = next_entry (codes "phase") (string p.phase) (
    optional (codes "reason") (text_json p.pod_reason)
      (optional (codes "containerStatuses") (statuses_json p.containers) empty_object))

abbrev pub metadata_entries : PodStatus → Entries
metadata_entries p =
    next_entry (codes "namespace") (string p.pod_namespace)
      (next_entry (codes "name") (string p.pod_name) empty_object)

abbrev pub spec_entries : PodStatus → Entries
spec_entries p = optional (codes "nodeName") (text_json p.node_name) empty_object

abbrev pub pod_entries : PodStatus → Entries
pod_entries p =
    next_entry (codes "metadata") (object (with_more p.more_metadata (metadata_entries p))) (
      next_entry (codes "spec") (object (with_more p.more_spec (spec_entries p))) (
        next_entry (codes "status") (object (with_more p.more_status (status_entries p)))
          empty_object))

abbrev pub pod_json : PodStatus → Value
pod_json p = object (with_more p.more_top (pod_entries p))

-- What else is written has none of the names that the program asks for.
abbrev pub IsWritten : PodStatus → Type 0
IsWritten p =
    IsOther p.more_metadata
    × IsOther p.more_spec
    × IsOther p.more_status
    × IsOther p.more_top
    × All (λ c. IsOther c.more) (or_else p.containers [])

abbrev pub up_count : List ContainerStatus → ℕ
up_count [] = 0
up_count (c ∷ cs) = let rest = up_count cs in if c.is_up then suc rest else rest

abbrev pub restart_sum : List ContainerStatus → ℕ
restart_sum [] = 0
restart_sum (c ∷ cs) = c.restart_count + restart_sum cs

-- Why a container waits.
abbrev pub reason_of_state : ContainerState → Option Text
reason_of_state (waiting reason) = reason
reason_of_state running = none
reason_of_state terminated = none

abbrev pub waiting_of : Option ContainerStatus → Option Text
waiting_of none = none
waiting_of (some c) = reason_of_state c.state

-- What the program is to say of a pod.
abbrev pub pod_summary : PodStatus → PodInfo
pod_summary p =
    let cs = or_else p.containers [] in
    record {
      namespace = p.pod_namespace;
      name = p.pod_name;
      phase = p.phase;
      ready = decimal (up_count cs % 2 ^ 32) ++ (codes "/" ++ decimal (length cs % 2 ^ 32));
      restarts = restart_sum cs % 2 ^ 32;
      node = or_else p.node_name [];
      reason = or_else (first_some p.pod_reason (waiting_of (last_entry cs))) [];
    }
