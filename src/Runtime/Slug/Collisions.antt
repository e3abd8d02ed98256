-- ===== src/Runtime/Slug/Collisions.antt =====
-- Which servers share a file name.
use zyris_docker.Prelude.{ℕ, false, ◌≡◌, [], ◌∷◌, ◌++◌}
use zyris_docker.Prelude.Text.{Text}
use zyris_docker.Runtime.Slug.{
  is_ascii_alphanumeric, Slug, slug_char, slug_chars, slugify, file_name,
}

slug_char-separator :
    (s : Slug) (c d : ℕ)
    → is_ascii_alphanumeric c ≡ false
    → is_ascii_alphanumeric d ≡ false
    → slug_char s c ≡ slug_char s d
unfolding slug_char
slug_char-separator s c d hc hd = rw (hc, hd)

slug_chars-separator :
    (s : Slug) (x y : Text) (c d : ℕ)
    → is_ascii_alphanumeric c ≡ false
    → is_ascii_alphanumeric d ≡ false
    → slug_chars s (x ++ c ∷ y) ≡ slug_chars s (x ++ d ∷ y)
unfolding slug_chars
slug_chars-separator s [] y c d hc hd = rw (slug_char-separator s c d hc hd)
slug_chars-separator s (b ∷ x) y c d hc hd = rw (slug_chars-separator (slug_char s b) x y c d hc hd)

-- Two deployment URLs that differ only in which separator stands at one place, as `my-host` and
-- `my.host` do, keep their credential in one file, under any profile.
pub file_name-separator :
    (x y profile : Text) (c d : ℕ)
    → is_ascii_alphanumeric c ≡ false
    → is_ascii_alphanumeric d ≡ false
    → file_name (x ++ c ∷ y) profile ≡ file_name (x ++ d ∷ y) profile
unfolding file_name slugify
file_name-separator x y profile c d hc hd =
    rw (slug_chars-separator (record { out = []; prev_dash = false }) x y c d hc hd)
