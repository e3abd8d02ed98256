-- ===== src/Heal/Defs.antt =====
-- `SelfHealer` of src/heal.rs: what it samples, and one tick of its loop.
use zyris_docker.Prelude.{
  Option, Bool, true, false, not, ◌&&◌, List, [], ◌∷◌, ◌++◌, map, any, filterb, if◌then◌else◌,
  Result, ok, err,
}
use zyris_docker.K8s.{PodInfo, NodeInfo, pods, nodes}
use zyris_docker.System.{ProcessInfo, process_running}
use zyris_docker.Docker.{container_running}
use zyris_docker.Json.{Value}
use zyris_docker.Prelude.Text.{Text, codes, text_eq, is_empty}

-- `Incident` of src/monitor.rs.
pub record Incident : Type 0 where
  pub kind : Text
  pub name : Text
  pub detail : Text

-- What the probes answer at a tick: `process_running`, `container_running`, `k8s::pods` and
-- `k8s::nodes`.
pub record Probes : Type 0 where
  pub process_up : Text → Bool
  pub container_up : Text → Bool
  pub cluster_pods : Result Text (List PodInfo)
  pub cluster_nodes : Result Text (List NodeInfo)

-- The probes of a tick, from the process list and from what `docker` and `kubectl` answer at it.
unfoldable pub probes_of :
    List ProcessInfo
    → (Text → Option Value)
    → (List Text → Result Text Text)
    → (List Text → Result Text Value)
    → Probes
unfolding process_running container_running pods nodes
probes_of processes from_str run_docker run_kubectl = record {
  process_up = process_running processes;
  container_up = container_running from_str run_docker;
  cluster_pods = pods run_kubectl;
  cluster_nodes = nodes run_kubectl;
}

-- What the configuration names to be watched.
pub record Watched : Type 0 where
  pub watch_processes : List Text
  pub watch_containers : List Text
  pub watch_k8s : Bool

unfoldable pub process_incident : Text → Incident
process_incident name = record {
  kind = codes "process";
  name = name;
  detail = codes "required process `" ++ (name ++ codes "` is not running in this container");
}

unfoldable pub container_incident : Text → Incident
container_incident name = record {
  kind = codes "container";
  name = name;
  detail = codes "required docker container `" ++ (name ++ codes "` is not running");
}

unfoldable pub pod_incident : PodInfo → Incident
pod_incident pod = record {
  kind = codes "k8s_pod";
  name = pod.namespace ++ (codes "/" ++ pod.name);
  detail = codes "pod in phase " ++ (pod.phase ++ (codes " (" ++ (pod.reason ++ codes ")")));
}

unfoldable pub cluster_incident : Text → Incident
cluster_incident error = record {
  kind = codes "k8s";
  name = codes "cluster";
  detail = codes "could not read pods: " ++ error;
}

unfoldable pub node_incident : NodeInfo → Incident
node_incident node = record {
  kind = codes "k8s_node";
  name = node.name;
  detail = codes "node is not Ready";
}

-- A pod that is neither running nor a job that finished.
unfoldable pub pod_down : PodInfo → Bool
pod_down pod =
    not (text_eq pod.phase (codes "Running"))
    && not (text_eq pod.phase (codes "Succeeded"))
    && not (is_empty pod.name)

abbrev pub pod_incidents : Result Text (List PodInfo) → List Incident
pod_incidents (ok pods) = map pod_incident (filterb pod_down pods)
pod_incidents (err error) = cluster_incident error ∷ []

abbrev pub node_incidents : Result Text (List NodeInfo) → List Incident
node_incidents (ok nodes) = map node_incident (filterb (λ node. not node.ready) nodes)
node_incidents (err error) = []

-- `SelfHealer::sample`
unfoldable pub sample : Watched → Probes → List Incident
unfolding pod_down
sample watched probes =
    map process_incident (filterb (λ name. not (probes.process_up name)) watched.watch_processes)
    ++ (map container_incident
          (filterb (λ name. not (probes.container_up name)) watched.watch_containers)
        ++ (if watched.watch_k8s
            then pod_incidents probes.cluster_pods ++ node_incidents probes.cluster_nodes
            else []))

-- `format!("{}:{}", kind, name)`
unfoldable pub key : Incident → Text
key incident = incident.kind ++ (codes ":" ++ incident.name)

-- `contains_key`, the keys of the map being a list.
abbrev pub contains : Text → List Text → Bool
contains k keys = any (text_eq k) keys

-- The loop over the incidents of a tick, with whether the slot holds a connection: the incidents
-- that `report_incident` is spawned for, and the keys reported.
unfoldable pub report_loop : Bool → List Incident → List Text → List Incident × List Text
unfolding key
report_loop connected [] reported = ([], reported)
report_loop connected (incident ∷ incidents) reported = elim (contains (key incident) reported) [
  | true ↦ report_loop connected incidents reported
  | false ↦
      let (spawned, after) = report_loop connected incidents (key incident ∷ reported) in
      (if connected then incident ∷ spawned else spawned, after)
]

-- One turn of the loop of `SelfHealer::run`, from what the sample answered.
unfoldable pub tick : Bool → List Incident → List Text → List Incident × List Text
unfolding report_loop
tick connected incidents reported =
    let down = map key incidents in
    report_loop connected incidents (filterb (λ k. contains k down) reported)

-- A tick's sample, with whether a connection was there.
pub record Tick : Type 0 where
  pub incidents : List Incident
  pub connected : Bool

-- The loop of `SelfHealer::run` over the ticks: what is reported at each, in order.
unfoldable pub heal_run : List Text → List Tick → List (List Incident)
unfolding tick
heal_run reported [] = []
heal_run reported (t ∷ ticks) =
    let (spawned, after) = tick t.connected t.incidents reported in spawned ∷ heal_run after ticks
