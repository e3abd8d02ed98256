-- ===== src/K8s/Written.antt =====
-- JSON objects with entries that the program does not ask for.
use zyris_docker.Prelude.{
  ◌≡◌, ◌≢◌, refl, All, any, arith, true, false, Bool, Bool-cases, inl, inr, Option, none, some,
  List, [], ◌∷◌, if◌then◌else◌,
}
use zyris_docker.Prelude.Text.{Text, codes, text_eq, text_eq_sound}
use zyris_docker.Json.{Value, object, Entries, empty_object, next_entry, lookup, get}

-- The names of the entries that the program asks for.
abbrev pub asked : List Text
asked =
    codes "metadata"
    ∷ codes "spec"
    ∷ codes "status"
    ∷ codes "namespace"
    ∷ codes "name"
    ∷ codes "nodeName"
    ∷ codes "phase"
    ∷ codes "reason"
    ∷ codes "containerStatuses"
    ∷ codes "ready"
    ∷ codes "restartCount"
    ∷ codes "state"
    ∷ []

-- Entries that the program asks for none of.
abbrev pub IsOther : Entries → Type 0
IsOther more = All (λ k. lookup more k ≡ none) asked

abbrev pub with_more : Entries → Entries → Entries
with_more empty_object entries = entries
with_more (next_entry name v more) entries = next_entry name v (with_more more entries)

found_none :
    (b : Bool) (v : Value) (rest : Option Value) → b ≡ true → (if b then some v else rest) ≢ none
found_none true v rest e = λ h. cc
found_none false v rest e = cc

rest_none :
    (b : Bool) (v : Value) (rest : Option Value)
    → b ≡ false
    → (if b then some v else rest) ≡ none
    → rest ≡ none
rest_none true v rest e h = cc
rest_none false v rest e h = h

lookup-with_more :
    (more entries : Entries) (k : Text)
    → lookup more k ≡ none
    → lookup (with_more more entries) k ≡ lookup entries k
unfolding lookup
lookup-with_more empty_object entries k h = refl
lookup-with_more (next_entry name v more) entries k h = elim (Bool-cases (text_eq name k)) [
  | inl e ↦ absurd (found_none (text_eq name k) v (lookup more k) e h)
  | inr e ↦
      rw e (lookup-with_more more entries k (rest_none (text_eq name k) v (lookup more k) e h))
]

is_asked :
    (more : Entries) (keys : List Text) (k : Text)
    → All (λ x. lookup more x ≡ none) keys
    → any (text_eq k) keys ≡ true
    → lookup more k ≡ none
is_asked more [] k h e = cc
is_asked more (x ∷ keys) k h e = elim (Bool-cases (text_eq k x)) [
  | inl same ↦ rw (text_eq_sound k x same) h.0
  | inr other ↦ is_asked more keys k h.1 (ground (arith, e, other))
]

-- Other entries do not change the answer to what the program asks for.
pub get-with_more :
    (more entries : Entries) (k : Text)
    → IsOther more
    → any (text_eq k) asked ≡ true
    → get k (some (object (with_more more entries))) ≡ get k (some (object entries))
get-with_more more entries k h e = lookup-with_more more entries k (is_asked more asked k h e)
