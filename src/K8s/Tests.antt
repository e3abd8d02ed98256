-- ===== src/K8s/Tests.antt =====
-- A pod that waits and a worker that is ready, and the theorems on them.
use zyris_docker.Prelude.{◌≡◌, refl, true, false, none, some, [], ◌∷◌}
use zyris_docker.Prelude.Text.{Text, codes, text_eq, starts_with, split}
use zyris_docker.Json.{
  Value, string, array, object, next_value, empty_array, next_entry, empty_object, lookup,
}
use zyris_docker.K8s.Defs.{node_of, node_ready, roles_of}
use zyris_docker.K8s.Nodes.{NodeStatus, role, other}
use zyris_docker.K8s.PodJson.{PodStatus, waiting, running}

abbrev crashing : PodStatus
crashing = record {
  pod_namespace = codes "default";
  pod_name = codes "web-0";
  node_name = none;
  phase = codes "Pending";
  pod_reason = none;
  containers = some (
      record { is_up = true; restart_count = 1; state = running; more = empty_object }
      ∷ record {
        is_up = false;
        restart_count = 4;
        state = waiting (some (codes "CrashLoopBackOff"));
        more = next_entry (codes "image") (string (codes "web:1")) empty_object;
      }
      ∷ []);
  more_metadata = next_entry (codes "uid") (string (codes "u-1")) empty_object;
  more_spec = empty_object;
  more_status = empty_object;
  more_top = next_entry (codes "kind") (string (codes "Pod")) empty_object;
}

abbrev condition : Text → Text → Value
condition kind status = object (
    next_entry (codes "type") (string kind)
      (next_entry (codes "status") (string status) empty_object))

ready_node :
    node_of (
      object (
        next_entry
          (codes "metadata")
          (object (
            next_entry (codes "name") (string (codes "n1")) (
              next_entry
                (codes "labels")
                (object
                  (next_entry (codes "node-role.kubernetes.io/worker") (string []) empty_object))
                empty_object)))
          (next_entry
            (codes "status")
            (object (
              next_entry
                (codes "conditions")
                (array (
                  next_value
                    (condition (codes "DiskPressure") (codes "False"))
                    (next_value (condition (codes "Ready") (codes "True")) empty_array)))
                empty_object))
            empty_object)))
    ≡ record { name = codes "n1"; ready = true; roles = codes "worker" ∷ []; version = [] }
unfolding node_of node_ready roles_of lookup text_eq starts_with split
ready_node = refl

abbrev worker : NodeStatus
worker = record {
  node_name = codes "n1";
  kubelet = codes "v1.30.0";
  conditions =
      record { kind = codes "DiskPressure"; status = codes "False" }
      ∷ record { kind = codes "Ready"; status = codes "True" }
      ∷ [];
  labels = other (codes "zone") (codes "a") ∷ role (codes "w") ∷ [];
}
