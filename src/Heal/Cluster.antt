-- ===== src/Heal/Cluster.antt =====
-- What the watcher samples of a cluster, against the cluster.
use zyris_docker.Prelude.{Bool, not, ◌&&◌, List, [], ◌++◌, map, filterb}
use zyris_docker.Prelude.Text.{Text, codes, text_eq, is_empty}
use zyris_docker.Runtime.Config.{or_else}
use zyris_docker.K8s.PodJson.{PodStatus, waiting_of}
use zyris_docker.K8s.{first_some, last_entry}
use zyris_docker.K8s.Nodes.{NodeStatus, is_up}
use zyris_docker.Heal.Defs.{Incident}

-- A pod with a name that neither runs nor is done.
abbrev pub is_broken : PodStatus → Bool
is_broken p =
    not (text_eq p.phase (codes "Running"))
    && not (text_eq p.phase (codes "Succeeded"))
    && not (is_empty p.pod_name)

abbrev pub reason_text : PodStatus → Text
reason_text p =
    or_else (first_some p.pod_reason (waiting_of (last_entry (or_else p.containers [])))) []

abbrev pub broken_pod : PodStatus → Incident
broken_pod p = record {
  kind = codes "k8s_pod";
  name = p.pod_namespace ++ (codes "/" ++ p.pod_name);
  detail = codes "pod in phase " ++ (p.phase ++ (codes " (" ++ (reason_text p ++ codes ")")));
}

abbrev pub unready_node : NodeStatus → Incident
unready_node n = record {
  kind = codes "k8s_node";
  name = n.node_name;
  detail = codes "node is not Ready";
}

-- What is down in a cluster.
abbrev pub cluster_down : List PodStatus → List NodeStatus → List Incident
cluster_down ps ns =
    map broken_pod (filterb is_broken ps)
    ++ map unready_node (filterb (λ n. not (is_up n.conditions)) ns)
