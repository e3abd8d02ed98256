-- ===== src/K8s/Nodes.antt =====
-- `nodes` against a writer of nodes.
use zyris_docker.Prelude.{
  ◌≡◌, refl, Bool, Bool-cases, false, inl, inr, some, List, [], ◌∷◌, ◌++◌, All, ◌==◌, if◌then◌else◌,
}
use zyris_docker.Prelude.Text.{Text, codes, text_eq, starts_with, starts_with_append, split}
use zyris_docker.FilePath.Display.{split_whole}
use zyris_docker.Json.{
  Value, string, array, object, Values, empty_array, next_value, Entries, empty_object, next_entry,
  lookup, keys_of,
}
use zyris_docker.K8s.Defs.{NodeInfo, node_ready, roles_of, node_of}

-- What a cluster keeps of a node. A label names a role, or is another one with its value.
pub record Condition : Type 0 where
  pub kind : Text
  pub status : Text

pub data Label : Type 0 where
  role : Text → Label
  other : Text → Text → Label

pub record NodeStatus : Type 0 where
  pub node_name : Text
  pub kubelet : Text
  pub conditions : List Condition
  pub labels : List Label

abbrev pub role_prefix : Text
role_prefix = codes "node-role.kubernetes.io/"

abbrev condition_json : Condition → Value
condition_json c = object (
    next_entry (codes "type") (string c.kind)
      (next_entry (codes "status") (string c.status) empty_object))

abbrev conditions_json : List Condition → Values
conditions_json [] = empty_array
conditions_json (c ∷ cs) = next_value (condition_json c) (conditions_json cs)

abbrev labels_json : List Label → Entries
labels_json [] = empty_object
labels_json (role r ∷ labels) = next_entry (role_prefix ++ r) (string []) (labels_json labels)
labels_json (other key value ∷ labels) = next_entry key (string value) (labels_json labels)

abbrev node_status_json : List Condition → Text → Value
node_status_json conditions kubelet = object (
    next_entry (codes "conditions") (array (conditions_json conditions)) (
      next_entry (codes "nodeInfo")
        (object (next_entry (codes "kubeletVersion") (string kubelet) empty_object)) empty_object))

abbrev pub node_json : NodeStatus → Value
node_json n = object (
    next_entry (codes "metadata")
      (object (
        next_entry (codes "name") (string n.node_name)
          (next_entry (codes "labels") (object (labels_json n.labels)) empty_object)))
      (next_entry (codes "status") (node_status_json n.conditions n.kubelet) empty_object))

-- The first condition of the kind `Ready` holds.
abbrev pub is_up : List Condition → Bool
is_up [] = false
is_up (c ∷ cs) =
    let rest = is_up cs in
    if text_eq c.kind (codes "Ready") then text_eq c.status (codes "True") else rest

abbrev pub roles_named : List Label → List Text
roles_named [] = []
roles_named (role r ∷ labels) = r ∷ roles_named labels
roles_named (other key value ∷ labels) = roles_named labels

-- What the program is to say of a node.
abbrev pub node_summary : NodeStatus → NodeInfo
node_summary n = record {
  name = n.node_name;
  ready = is_up n.conditions;
  roles = roles_named n.labels;
  version = n.kubelet;
}

-- A role's name has no slash, since a label's key has one at most; another label is no role's.
abbrev pub IsLabel : Label → Type 0
IsLabel (role r) = All (λ c. (c == b'/') ≡ false) r
IsLabel (other key value) = starts_with key role_prefix ≡ false

ready_read :
    (cs : List Condition) (kubelet : Text)
    → node_ready (some (node_status_json cs kubelet)) ≡ is_up cs
unfolding node_ready lookup text_eq
ready_read [] kubelet = refl
ready_read (c ∷ cs) kubelet = elim (Bool-cases (text_eq c.kind (codes "Ready"))) [
  | inl e ↦ rw e refl
  | inr e ↦ rw e (ready_read cs kubelet)
]

role_read :
    (r : Text)
    → IsLabel (role r)
    → split b'/' (role_prefix ++ r) ≡ codes "node-role.kubernetes.io" ∷ r ∷ []
unfolding split
role_read r h = rw (split_whole r h) refl

roles_read :
    (labels : List Label)
    → All IsLabel labels
    → roles_of (keys_of (labels_json labels)) ≡ roles_named labels
unfolding roles_of
roles_read [] h = refl
roles_read (role r ∷ labels) (here, h) =
    rw (starts_with_append role_prefix r, role_read r here, roles_read labels h) refl
roles_read (other key value ∷ labels) (here, h) = rw (here) (roles_read labels h)

pub node_of-node_json :
    (n : NodeStatus) → All IsLabel n.labels → node_of (node_json n) ≡ node_summary n
unfolding node_of lookup text_eq
node_of-node_json n h = rw (roles_read n.labels h, ready_read n.conditions n.kubelet) refl
