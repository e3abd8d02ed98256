-- ===== src/K8s/Listed.antt =====
-- The lists that `kubectl get` answers with, and what `pods` and `nodes` make of them.
use zyris_docker.Prelude.{◌≡◌, refl, List, [], ◌∷◌, map, All, Result, ok}
use zyris_docker.Prelude.Text.{Text, codes, text_eq}
use zyris_docker.Json.{
  Value, array, object, Values, empty_array, next_value, empty_object, next_entry, lookup,
  values_of,
}
use zyris_docker.K8s.Defs.{pod_of, node_of, pods, nodes}
use zyris_docker.K8s.PodJson.{PodStatus, pod_json, IsWritten, pod_summary}
use zyris_docker.K8s.Pods.{pod_of-pod_json}
use zyris_docker.K8s.Nodes.{NodeStatus, node_json, node_summary, IsLabel, node_of-node_json}

abbrev array_of : List Value → Values
array_of [] = empty_array
array_of (v ∷ vs) = next_value v (array_of vs)

abbrev pub list_json : List Value → Value
list_json vs = object (next_entry (codes "items") (array (array_of vs)) empty_object)

abbrev pub pods_arguments : List Text
pods_arguments = codes "get" ∷ codes "pods" ∷ codes "-A" ∷ codes "-o" ∷ codes "json" ∷ []

abbrev pub nodes_arguments : List Text
nodes_arguments = codes "get" ∷ codes "nodes" ∷ codes "-o" ∷ codes "json" ∷ []

map-array_of :
    {A B : Type 0} (read : Value → B) (json : A → Value) (summary : A → B) (P : A → Type 0)
    → ((a : A) → P a → read (json a) ≡ summary a)
    → (xs : List A) → All P xs
    → map read (values_of (array_of (map json xs))) ≡ map summary xs
map-array_of read json summary P h [] all = refl
map-array_of read json summary P h (x ∷ xs) all =
    rw (h x all.0, map-array_of read json summary P h xs all.1) refl

module _ (run_kubectl : List Text → Result Text Value) where
  pub pods-list_json :
      (ps : List PodStatus)
      → All IsWritten ps
      → run_kubectl pods_arguments ≡ ok (list_json (map pod_json ps))
      → pods run_kubectl ≡ ok (map pod_summary ps)
  unfolding pods lookup text_eq
  pods-list_json ps written h =
      rw (h, map-array_of pod_of pod_json pod_summary IsWritten pod_of-pod_json ps written) refl

  pub nodes-list_json :
      (ns : List NodeStatus)
      → All (λ n. All IsLabel n.labels) ns
      → run_kubectl nodes_arguments ≡ ok (list_json (map node_json ns))
      → nodes run_kubectl ≡ ok (map node_summary ns)
  unfolding nodes lookup text_eq
  nodes-list_json ns labels h =
      rw
        (
          h,
          map-array_of node_of node_json node_summary (λ n. All IsLabel n.labels) node_of-node_json
              ns labels,
        )
        refl
