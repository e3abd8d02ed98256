-- ===== src/Runtime/Slug.antt =====
-- The name of the credential file, `slugify` and `file_name` of src/runtime/store.rs.
pub mod Safe
pub mod Collisions
mod Tests
use zyris_docker.Prelude.{
  ℕ, ◌+◌, ◌*◌, Bool, true, false, not, ◌&&◌, ◌||◌, List, [], ◌∷◌, ◌++◌, leb, ◌==◌, if◌then◌else◌,
  length,
}
use zyris_docker.Prelude.Text.{Text, codes, is_empty, trim_matches}

-- `char::is_ascii_alphanumeric`
unfoldable pub is_ascii_alphanumeric : ℕ → Bool
is_ascii_alphanumeric c =
    (leb b'0' c && leb c b'9') || (leb b'A' c && leb c b'Z') || (leb b'a' c && leb c b'z')

-- `char::to_lowercase` of an ASCII character.
unfoldable pub to_lowercase : ℕ → ℕ
to_lowercase c = if leb b'A' c && leb c b'Z' then c + 32 else c

-- `out` and `prev_dash`
pub record Slug : Type 0 where
  pub out : Text
  pub prev_dash : Bool

-- One turn of the loop of `slugify`, its length test apart.
unfoldable pub slug_char : Slug → ℕ → Slug
unfolding is_ascii_alphanumeric to_lowercase is_empty
slug_char s ch =
    if is_ascii_alphanumeric ch
    then record { out = s.out ++ to_lowercase ch ∷ []; prev_dash = false }
    else if not s.prev_dash && not (is_empty s.out)
    then record { out = s.out ++ b'-' ∷ []; prev_dash = true }
    else s

-- The loop of `slugify`. All that is pushed is ASCII, so `out.len()` is its number of characters.
unfoldable pub slug_chars : Slug → Text → Slug
unfolding slug_char
slug_chars s [] = s
slug_chars s (ch ∷ input) =
    let next = slug_char s ch in
    let rest = slug_chars next input in if leb 48 (length next.out) then next else rest

unfoldable pub slugify : Text → Text
unfolding slug_chars trim_matches
slugify input =
    let trimmed =
      trim_matches (λ c. c == b'-')
        (slug_chars (record { out = []; prev_dash = false }) input).out in
    if is_empty trimmed then codes "default" else trimmed

-- `file_name`
unfoldable pub file_name : Text → Text → Text
unfolding slugify
file_name server_url profile =
    slugify server_url ++ (codes "-" ++ (slugify profile ++ codes ".json"))
