-- ===== src/K8s/Pods.antt =====
-- `pods` against a writer of pods.
use zyris_docker.Prelude.{
  suc, ◌+◌, ◌%◌, ◌^◌, ◌≡◌, refl, ap, ◌∙◌, All, Bool-cases, inl, inr, Option, none, some, List, [],
  ◌∷◌, filterb, length,
}
use zyris_docker.Prelude.Text.{Text, codes, text_eq}
use zyris_docker.Runtime.Config.{or_else}
use zyris_docker.Json.{
  Value, string, object, empty_object, next_entry, lookup, values_of, get, as_str, as_array, as_u64,
  is_true,
}
use zyris_docker.K8s.Defs.{
  is_ready, total_restarts, last_entry, first_some, counts_of, last_of, str_or_empty,
  container_counts, reason_of, pod_of,
}
use zyris_docker.K8s.Written.{IsOther, with_more, get-with_more}
use zyris_docker.K8s.PodJson.{
  ContainerState, waiting, running, terminated, ContainerStatus, PodStatus, optional, text_json,
  state_json, container_entries, container_json, containers_json, statuses_json, status_entries,
  metadata_entries, spec_entries, pod_entries, pod_json, IsWritten, up_count, restart_sum,
  reason_of_state, waiting_of, pod_summary,
}

ready_found : (c : ContainerStatus) → IsOther c.more → is_ready (container_json c) ≡ c.is_up
unfolding lookup text_eq
ready_found c h = ap is_true (get-with_more c.more (container_entries c) (codes "ready") h refl)

restarts_found :
    (c : ContainerStatus)
    → IsOther c.more
    → or_else (as_u64 (get (codes "restartCount") (some (container_json c)))) 0 ≡ c.restart_count
unfolding lookup text_eq
restarts_found c h =
    ap (λ v. or_else (as_u64 v) 0)
      (get-with_more c.more (container_entries c) (codes "restartCount") h refl)

ready_count :
    (cs : List ContainerStatus)
    → All (λ c. IsOther c.more) cs
    → length (filterb is_ready (values_of (containers_json cs))) ≡ up_count cs
ready_count [] h = refl
ready_count (c ∷ cs) h = elim (Bool-cases c.is_up) [
  | inl e ↦ rw (ready_found c h.0, e) (ap suc (ready_count cs h.1))
  | inr e ↦ rw (ready_found c h.0, e) (ready_count cs h.1)
]

length-containers_json :
    (cs : List ContainerStatus) → length (values_of (containers_json cs)) ≡ length cs
length-containers_json [] = refl
length-containers_json (c ∷ cs) = ap suc (length-containers_json cs)

restarts-containers_json :
    (cs : List ContainerStatus)
    → All (λ c. IsOther c.more) cs
    → total_restarts (values_of (containers_json cs)) ≡ restart_sum cs
restarts-containers_json [] h = refl
restarts-containers_json (c ∷ cs) h =
    rw (restarts_found c h.0) (ap (λ n. c.restart_count + n) (restarts-containers_json cs h.1))

abbrev mapped_json : Option ContainerStatus → Option Value
mapped_json none = none
mapped_json (some c) = some (container_json c)

last-containers_json :
    (cs : List ContainerStatus)
    → last_entry (values_of (containers_json cs)) ≡ mapped_json (last_entry cs)
last-containers_json [] = refl
last-containers_json (c ∷ []) = refl
last-containers_json (c ∷ d ∷ cs) = last-containers_json (d ∷ cs)

-- The entries of a status are found whichever of them are there.
optional_statuses :
    (phase : Text) (reason : Option Text) (containers : Option (List ContainerStatus))
    → get (codes "containerStatuses") (
        some (
          object (
            next_entry (codes "phase") (string phase) (
              optional
                (codes "reason")
                (text_json reason)
                (optional (codes "containerStatuses") (statuses_json containers) empty_object)))))
      ≡ statuses_json containers
unfolding lookup text_eq
optional_statuses phase none none = refl
optional_statuses phase none (some cs) = refl
optional_statuses phase (some t) none = refl
optional_statuses phase (some t) (some cs) = refl

optional_reason :
    (phase : Text) (reason : Option Text) (containers : Option (List ContainerStatus))
    → as_str (
        get (codes "reason") (
          some (
            object (
              next_entry (codes "phase") (string phase) (
                optional (codes "reason") (text_json reason) (
                  optional (codes "containerStatuses") (statuses_json containers) empty_object))))))
      ≡ reason
unfolding lookup text_eq
optional_reason phase none none = refl
optional_reason phase none (some cs) = refl
optional_reason phase (some t) containers = refl

abbrev status_of : PodStatus → Option Value
status_of p = some (object (with_more p.more_status (status_entries p)))

statuses_found :
    (p : PodStatus)
    → IsWritten p
    → get (codes "containerStatuses") (status_of p) ≡ statuses_json p.containers
unfolding text_eq
statuses_found p h =
    get-with_more p.more_status (status_entries p) (codes "containerStatuses") h.2 refl
    ∙ optional_statuses p.phase p.pod_reason p.containers

own_reason :
    (p : PodStatus) → IsWritten p → as_str (get (codes "reason") (status_of p)) ≡ p.pod_reason
unfolding text_eq
own_reason p h =
    ap as_str (get-with_more p.more_status (status_entries p) (codes "reason") h.2 refl)
    ∙ optional_reason p.phase p.pod_reason p.containers

state_reason :
    (state : ContainerState)
    → as_str (get (codes "reason") (get (codes "waiting") (some (state_json state))))
      ≡ reason_of_state state
unfolding lookup text_eq
state_reason (waiting none) = refl
state_reason (waiting (some t)) = refl
state_reason running = refl
state_reason terminated = refl

state_found :
    (c : ContainerStatus)
    → IsOther c.more
    → get (codes "state") (some (container_json c)) ≡ some (state_json c.state)
unfolding lookup text_eq
state_found c h = get-with_more c.more (container_entries c) (codes "state") h refl

waiting_found :
    (cs : List ContainerStatus)
    → All (λ c. IsOther c.more) cs
    → as_str (
        get
          (codes "reason")
          (get (codes "waiting") (get (codes "state") (mapped_json (last_entry cs)))))
      ≡ waiting_of (last_entry cs)
waiting_found [] h = refl
waiting_found (c ∷ []) h = rw (state_found c h.0) (state_reason c.state)
waiting_found (c ∷ d ∷ cs) h = waiting_found (d ∷ cs) h.1

counts_of_statuses :
    (containers : Option (List ContainerStatus))
    → let cs = or_else containers [] in
      All (λ c. IsOther c.more) cs
      → counts_of (as_array (statuses_json containers))
        ≡ (up_count cs % 2 ^ 32, length cs % 2 ^ 32, restart_sum cs % 2 ^ 32)
counts_of_statuses none h = refl
counts_of_statuses (some cs) h =
    rw (ready_count cs h, length-containers_json cs, restarts-containers_json cs h) refl

counts_read :
    (p : PodStatus)
    → IsWritten p
    → let cs = or_else p.containers [] in
      container_counts (status_of p)
      ≡ (up_count cs % 2 ^ 32, length cs % 2 ^ 32, restart_sum cs % 2 ^ 32)
unfolding container_counts
counts_read p h = rw (statuses_found p h) (counts_of_statuses p.containers h.4)

last_status :
    (containers : Option (List ContainerStatus))
    → last_of (as_array (statuses_json containers))
      ≡ mapped_json (last_entry (or_else containers []))
last_status none = refl
last_status (some cs) = last-containers_json cs

reason_read :
    (p : PodStatus)
    → IsWritten p
    → reason_of (status_of p)
      ≡ or_else (first_some p.pod_reason (waiting_of (last_entry (or_else p.containers [])))) []
unfolding reason_of
reason_read p h =
    rw (own_reason p h, statuses_found p h) rw
      (last_status p.containers, waiting_found (or_else p.containers []) h.4) refl

node_name_found :
    (name : Option Text)
    → str_or_empty (
        get
          (codes "nodeName")
          (some (object (optional (codes "nodeName") (text_json name) empty_object))))
      ≡ or_else name []
unfolding lookup text_eq
node_name_found none = refl
node_name_found (some t) = refl

abbrev part : Text → PodStatus → Option Value
part k p = get k (some (pod_json p))

-- The three parts of a pod.
parts_found :
    (p : PodStatus)
    → IsWritten p
    → (part (codes "metadata") p ≡ some (object (with_more p.more_metadata (metadata_entries p))))
      × (part (codes "spec") p ≡ some (object (with_more p.more_spec (spec_entries p))))
      × (part (codes "status") p ≡ status_of p)
unfolding lookup text_eq
parts_found p h = (
  get-with_more p.more_top (pod_entries p) (codes "metadata") h.3 refl,
  get-with_more p.more_top (pod_entries p) (codes "spec") h.3 refl,
  get-with_more p.more_top (pod_entries p) (codes "status") h.3 refl,
)

names_found :
    (p : PodStatus)
    → IsWritten p
    → let metadata = some (object (with_more p.more_metadata (metadata_entries p))) in
      (str_or_empty (get (codes "namespace") metadata) ≡ p.pod_namespace)
      × (str_or_empty (get (codes "name") metadata) ≡ p.pod_name)
unfolding lookup text_eq
names_found p h = (
  ap str_or_empty (get-with_more p.more_metadata (metadata_entries p) (codes "namespace") h.0 refl),
  ap str_or_empty (get-with_more p.more_metadata (metadata_entries p) (codes "name") h.0 refl),
)

node_read :
    (p : PodStatus)
    → IsWritten p
    → str_or_empty (get (codes "nodeName") (some (object (with_more p.more_spec (spec_entries p)))))
      ≡ or_else p.node_name []
unfolding text_eq
node_read p h =
    ap str_or_empty (get-with_more p.more_spec (spec_entries p) (codes "nodeName") h.1 refl)
    ∙ node_name_found p.node_name

phase_read :
    (p : PodStatus) → IsWritten p → str_or_empty (get (codes "phase") (status_of p)) ≡ p.phase
unfolding lookup text_eq
phase_read p h =
    ap str_or_empty (get-with_more p.more_status (status_entries p) (codes "phase") h.2 refl)

pub pod_of-pod_json : (p : PodStatus) → IsWritten p → pod_of (pod_json p) ≡ pod_summary p
unfolding pod_of
pod_of-pod_json p h =
    let (metadata, spec, status) = parts_found p h in
    let (namespace, name) = names_found p h in
    rw (metadata, spec, status) rw
      (counts_read p h, reason_read p h, node_read p h, phase_read p h, namespace, name) refl
