-- ===== src/Json.antt =====
-- `serde_json::Value` and the questions that the program asks of one. An object is a list of entries
-- with distinct keys, and a number that is no `u64` is `other_number`.
use zyris_docker.Prelude.{ℕ, Bool, false, Option, none, some, List, [], ◌∷◌, if◌then◌else◌}
use zyris_docker.Prelude.Text.{Text, text_eq}

mutual
  pub data Value : Type 0 where
    null other_number : Value
    boolean : Bool → Value
    number : ℕ → Value
    string : Text → Value
    array : Values → Value
    object : Entries → Value

  pub data Values : Type 0 where
    empty_array : Values
    next_value : Value → Values → Values

  pub data Entries : Type 0 where
    empty_object : Entries
    next_entry : Text → Value → Entries → Entries

unfoldable pub lookup : Entries → Text → Option Value
lookup empty_object key = none
lookup (next_entry name value entries) key =
    let rest = lookup entries key in if text_eq name key then some value else rest

abbrev pub values_of : Values → List Value
values_of empty_array = []
values_of (next_value v vs) = v ∷ values_of vs

abbrev pub keys_of : Entries → List Text
keys_of empty_object = []
keys_of (next_entry name value entries) = name ∷ keys_of entries

-- `.and_then(|v| v.get(key))`
abbrev pub get : Text → Option Value → Option Value
get key (some (object entries)) = lookup entries key
get key (some null) = none
get key (some other_number) = none
get key (some (boolean b)) = none
get key (some (number n)) = none
get key (some (string t)) = none
get key (some (array vs)) = none
get key none = none

-- `.and_then(|v| v.as_str())`
abbrev pub as_str : Option Value → Option Text
as_str (some (string t)) = some t
as_str (some (object entries)) = none
as_str (some null) = none
as_str (some other_number) = none
as_str (some (boolean b)) = none
as_str (some (number n)) = none
as_str (some (array vs)) = none
as_str none = none

-- `.and_then(|v| v.as_array())`
abbrev pub as_array : Option Value → Option (List Value)
as_array (some (array vs)) = some (values_of vs)
as_array (some (string t)) = none
as_array (some (object entries)) = none
as_array (some null) = none
as_array (some other_number) = none
as_array (some (boolean b)) = none
as_array (some (number n)) = none
as_array none = none

-- `.and_then(|v| v.as_object())`, as the keys.
abbrev pub as_object_keys : Option Value → Option (List Text)
as_object_keys (some (object entries)) = some (keys_of entries)
as_object_keys (some (array vs)) = none
as_object_keys (some (string t)) = none
as_object_keys (some null) = none
as_object_keys (some other_number) = none
as_object_keys (some (boolean b)) = none
as_object_keys (some (number n)) = none
as_object_keys none = none

-- `.and_then(|v| v.as_bool()).unwrap_or(false)`
abbrev pub is_true : Option Value → Bool
is_true (some (boolean b)) = b
is_true (some (array vs)) = false
is_true (some (string t)) = false
is_true (some (object entries)) = false
is_true (some null) = false
is_true (some other_number) = false
is_true (some (number n)) = false
is_true none = false

-- `.and_then(|v| v.as_u64())`
abbrev pub as_u64 : Option Value → Option ℕ
as_u64 (some (number n)) = some n
as_u64 (some (boolean b)) = none
as_u64 (some (array vs)) = none
as_u64 (some (string t)) = none
as_u64 (some (object entries)) = none
as_u64 (some null) = none
as_u64 (some other_number) = none
as_u64 none = none
