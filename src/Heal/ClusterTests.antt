-- ===== src/Heal/ClusterTests.antt =====
-- A cluster with a pod that no node has taken and a node that is not ready, and the theorem on it.
use zyris_docker.Prelude.{true, none, List, [], ◌∷◌, map, any, if◌then◌else◌, Result, ok}
use zyris_docker.Prelude.Text.{Text, codes, text_eq}
use zyris_docker.Json.{Value, string, empty_object, next_entry}
use zyris_docker.K8s.PodJson.{PodStatus, pod_json}
use zyris_docker.K8s.Nodes.{NodeStatus, role, node_json}
use zyris_docker.K8s.Listed.{list_json}
use zyris_docker.Heal.Defs.{Watched}

abbrev unscheduled : PodStatus
unscheduled = record {
  pod_namespace = codes "shop";
  pod_name = codes "db";
  node_name = none;
  phase = codes "Pending";
  pod_reason = none;
  containers = none;
  more_metadata = next_entry (codes "uid") (string (codes "u-1")) empty_object;
  more_spec = empty_object;
  more_status = empty_object;
  more_top = next_entry (codes "kind") (string (codes "Pod")) empty_object;
}

abbrev unready : NodeStatus
unready = record {
  node_name = codes "n1";
  kubelet = codes "v1";
  conditions = record { kind = codes "Ready"; status = codes "Unknown" } ∷ [];
  labels = role (codes "w") ∷ [];
}

abbrev kubectl : List Text → Result Text Value
kubectl arguments =
    if any (text_eq (codes "pods")) arguments
    then ok (list_json (map pod_json (unscheduled ∷ [])))
    else ok (list_json (map node_json (unready ∷ [])))

abbrev docker : List Text → Result Text Text
docker arguments = ok []

abbrev watched : Watched
watched = record { watch_processes = codes "nginx" ∷ []; watch_containers = []; watch_k8s = true }
