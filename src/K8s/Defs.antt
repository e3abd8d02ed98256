-- ===== src/K8s/Defs.antt =====
-- What src/k8s.rs reads of the answers of `kubectl`, which are a JSON value or an error.
use zyris_docker.Prelude.{
  ℕ, ◌+◌, ◌%◌, ◌^◌, Bool, false, Option, none, some, List, [], ◌∷◌, ◌++◌, map, filterb, length,
  if◌then◌else◌, Result, ok, ◌>>=◌,
}
use zyris_docker.Prelude.Text.{Text, codes, text_eq, starts_with, split}
use zyris_docker.Runtime.Config.{or_else}
use zyris_docker.Runtime.Store.{decimal}
use zyris_docker.Json.{Value, get, as_str, as_array, as_object_keys, is_true, as_u64}

pub record PodInfo : Type 0 where
  pub namespace : Text
  pub name : Text
  pub phase : Text
  pub ready : Text
  pub restarts : ℕ
  pub node : Text
  pub reason : Text

pub record NodeInfo : Type 0 where
  pub name : Text
  pub ready : Bool
  pub roles : List Text
  pub version : Text

-- `.and_then(|v| v.as_str()).unwrap_or("")`
abbrev pub str_or_empty : Option Value → Text
str_or_empty v = or_else (as_str v) []

abbrev pub total_restarts : List Value → ℕ
total_restarts [] = 0
total_restarts (c ∷ cs) =
    or_else (as_u64 (get (codes "restartCount") (some c))) 0 + total_restarts cs

abbrev pub is_ready : Value → Bool
is_ready c = is_true (get (codes "ready") (some c))

abbrev pub counts_of : Option (List Value) → ℕ × ℕ × ℕ
counts_of none = (0, 0, 0)
counts_of (some cs) =
    (length (filterb is_ready cs) % 2 ^ 32, length cs % 2 ^ 32, total_restarts cs % 2 ^ 32)

-- `container_counts`: ready, total and restarts; the casts and the sum wrap around.
unfoldable pub container_counts : Option Value → ℕ × ℕ × ℕ
container_counts status = counts_of (as_array (get (codes "containerStatuses") status))

-- `arr.last()`
abbrev pub last_entry {ℓ} : {A : Type ℓ} → List A → Option A
last_entry [] = none
last_entry (c ∷ []) = some c
last_entry (c ∷ d ∷ cs) = last_entry (d ∷ cs)

abbrev pub last_of : Option (List Value) → Option Value
last_of none = none
last_of (some cs) = last_entry cs

abbrev pub first_some : Option Text → Option Text → Option Text
first_some none other = other
first_some (some t) other = some t

-- `status.reason`, or why the last container waits.
unfoldable pub reason_of : Option Value → Text
reason_of status =
    let waiting =
      get (codes "waiting")
        (get (codes "state") (last_of (as_array (get (codes "containerStatuses") status)))) in
    or_else
      (first_some (as_str (get (codes "reason") status)) (as_str (get (codes "reason") waiting))) []

-- One turn of the loop of `pods`.
unfoldable pub pod_of : Value → PodInfo
unfolding reason_of container_counts
pod_of pod =
    let meta = get (codes "metadata") (some pod) in
    let status = get (codes "status") (some pod) in
    let (ready_count, total, restarts) = container_counts status in
    record {
      namespace = str_or_empty (get (codes "namespace") meta);
      name = str_or_empty (get (codes "name") meta);
      phase = str_or_empty (get (codes "phase") status);
      ready = decimal ready_count ++ (codes "/" ++ decimal total);
      restarts = restarts;
      node = str_or_empty (get (codes "nodeName") (get (codes "spec") (some pod)));
      reason = reason_of status;
    }

abbrev items : Value → List Value
items v = or_else (as_array (get (codes "items") (some v))) []

abbrev pub condition_is : Text → Value → Bool
condition_is kind c = elim (as_str (get (codes "type") (some c))) [
  | some t ↦ text_eq t kind
  | none ↦ false
]

abbrev find : (Value → Bool) → List Value → Option Value
find p [] = none
find p (c ∷ cs) = if p c then some c else find p cs

abbrev is_str : Option Text → Text → Bool
is_str none t = false
is_str (some s) t = text_eq s t

abbrev first_condition : Option (List Value) → Option Value
first_condition none = none
first_condition (some cs) = find (condition_is (codes "Ready")) cs

-- The `Ready` condition's status is `True`.
unfoldable pub node_ready : Option Value → Bool
node_ready status =
    is_str
      (as_str (get (codes "status") (first_condition (as_array (get (codes "conditions") status)))))
      (codes "True")

abbrev last_piece : List Text → Text
last_piece [] = []
last_piece (piece ∷ []) = piece
last_piece (piece ∷ next ∷ pieces) = last_piece (next ∷ pieces)

-- The roles that the labels name.
unfoldable pub roles_of : List Text → List Text
roles_of labels =
    map (λ k. last_piece (split b'/' k))
      (filterb (λ k. starts_with k (codes "node-role.kubernetes.io/")) labels)

-- One turn of the loop of `nodes`.
unfoldable pub node_of : Value → NodeInfo
unfolding node_ready roles_of
node_of node =
    let meta = get (codes "metadata") (some node) in
    let status = get (codes "status") (some node) in
    record {
      name = str_or_empty (get (codes "name") meta);
      ready = node_ready status;
      roles = roles_of (or_else (as_object_keys (get (codes "labels") meta)) []);
      version = str_or_empty (get (codes "kubeletVersion") (get (codes "nodeInfo") status));
    }

module _ (run_kubectl : List Text → Result Text Value) where
  -- `pods`
  unfoldable pub pods : Result Text (List PodInfo)
  unfolding pod_of
  pods = do
    v ← run_kubectl (codes "get" ∷ codes "pods" ∷ codes "-A" ∷ codes "-o" ∷ codes "json" ∷ [])
    ok (map pod_of (items v))

  -- `nodes`
  unfoldable pub nodes : Result Text (List NodeInfo)
  unfolding node_of
  nodes = do
    v ← run_kubectl (codes "get" ∷ codes "nodes" ∷ codes "-o" ∷ codes "json" ∷ [])
    ok (map node_of (items v))
