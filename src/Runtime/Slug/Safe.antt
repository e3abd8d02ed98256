-- ===== src/Runtime/Slug/Safe.antt =====
-- What a slug and a file name are made of.
use zyris_docker.Prelude.{
  ℕ, ◌+◌, ◌≤◌, Bool, true, false, not, ◌&&◌, ◌||◌, ◌≡◌, refl, ◌⊎◌, inl, inr, [], ◌∷◌, ◌++◌, arith,
  leb, ◌==◌, length, length-append, All, All-append, All-map, Bool-cases, reverse,
}
use zyris_docker.Prelude.Text.{Text, codes, is_empty, text_eq, trim_matches}
use zyris_docker.Prelude.Trim.{
  StartsClear, trim_matches-All, trim_matches-clear, length-trim_matches,
}
use zyris_docker.FilePath.Clean.{IsName}
use zyris_docker.Runtime.Slug.{
  is_ascii_alphanumeric, to_lowercase, Slug, slug_char, slug_chars, slugify, file_name,
}

-- A lower-case letter, a digit or a dash.
unfoldable pub is_slug_char : ℕ → Bool
is_slug_char c = (leb b'0' c && leb c b'9') || (leb b'a' c && leb c b'z') || c == b'-'

abbrev pub IsSlugChar : ℕ → Type 0
IsSlugChar c = is_slug_char c ≡ true

lower_slug : (c : ℕ) → is_ascii_alphanumeric c ≡ true → IsSlugChar (to_lowercase c)
unfolding is_ascii_alphanumeric to_lowercase is_slug_char
lower_slug c h = ground arith

-- One character is pushed, or nothing changes.
slug_char-cases :
    (s : Slug) (c : ℕ)
    → ((d : ℕ) × IsSlugChar d × ((slug_char s c).out ≡ s.out ++ d ∷ [])) ⊎ (slug_char s c ≡ s)
unfolding slug_char
slug_char-cases s c = elim (Bool-cases (is_ascii_alphanumeric c)) [
  | inl e ↦ inl (to_lowercase c, lower_slug c e, rw e)
  | inr e ↦ elim (Bool-cases (not s.prev_dash && not (is_empty s.out))) [
    | inl f ↦ inl (b'-', unfold is_slug_char in refl, rw (e, f))
    | inr f ↦ inr (rw (e, f))
  ]
]

slug_char-All : (s : Slug) (c : ℕ) → All IsSlugChar s.out → All IsSlugChar (slug_char s c).out
slug_char-All s c h = elim (slug_char-cases s c) [
  | inl (d, slug, e) ↦ rw e (All-append IsSlugChar s.out (d ∷ []) h (slug, tt))
  | inr e ↦ rw e h
]

slug_char-length : (s : Slug) (c : ℕ) → length (slug_char s c).out ≤ length s.out + 1
slug_char-length s c = elim (slug_char-cases s c) [
  | inl (d, slug, e) ↦ rw e (omega (arith, length-append s.out (d ∷ [])))
  | inr e ↦ rw e (omega arith)
]

slug_chars-All :
    (s : Slug) (input : Text) → All IsSlugChar s.out → All IsSlugChar (slug_chars s input).out
unfolding slug_chars
slug_chars-All s [] h = h
slug_chars-All s (c ∷ input) h = elim (Bool-cases (leb 48 (length (slug_char s c).out))) [
  | inl e ↦ rw e (slug_char-All s c h)
  | inr e ↦ rw e (slug_chars-All (slug_char s c) input (slug_char-All s c h))
]

-- The loop stops at the first length of 48.
slug_chars-length :
    (s : Slug) (input : Text) → length s.out ≤ 47 → length (slug_chars s input).out ≤ 48
unfolding slug_chars
slug_chars-length s [] h = omega arith
slug_chars-length s (c ∷ input) h = elim (Bool-cases (leb 48 (length (slug_char s c).out))) [
  | inl e ↦ rw e (omega (arith, slug_char-length s c))
  | inr e ↦ rw e (slug_chars-length (slug_char s c) input (ground (arith, e)))
]

pub record IsSlug (t : Text) : Type 0 where
  pub chars : All IsSlugChar t
  pub short : length t ≤ 48
  pub nonempty : is_empty t ≡ false
  pub starts : StartsClear (λ c. c == b'-') t
  pub ends : StartsClear (λ c. c == b'-') (reverse t)

default-IsSlug : IsSlug (codes "default")
unfolding is_slug_char is_empty
default-IsSlug = record {
  chars = (refl, (refl, (refl, (refl, (refl, (refl, (refl, tt)))))));
  short = omega arith;
  nonempty = refl;
  starts = refl;
  ends = refl;
}

-- Whatever the text, its slug has between 1 and 48 characters, all of them lower-case letters,
-- digits and dashes, and neither begins nor ends with a dash.
pub slugify-IsSlug : (input : Text) → IsSlug (slugify input)
unfolding slugify
slugify-IsSlug input = elim (Bool-cases (is_empty (trim_matches (λ c. c == b'-') raw))) [
  | inl e ↦ rw e default-IsSlug
  | inr e ↦ rw e (record {
    chars = trim_matches-All IsSlugChar _ raw (slug_chars-All _ input tt);
    short = omega (arith, length-trim_matches (λ c. c == b'-') raw, slug_chars-length fresh input);
    nonempty = e;
    starts = (trim_matches-clear (λ c. c == b'-') raw).0;
    ends = (trim_matches-clear (λ c. c == b'-') raw).1;
  })
]
  where
    fresh : Slug
    fresh = record { out = []; prev_dash = false }

    raw : Text
    raw = (slug_chars fresh input).out

slug_no_slash : (c : ℕ) → IsSlugChar c → (c == b'/') ≡ false
unfolding is_slug_char
slug_no_slash c h = ground arith

slug_no_dot : (c : ℕ) → IsSlugChar c → (c == b'.') ≡ false
unfolding is_slug_char
slug_no_dot c h = ground arith

-- A text that begins with a slug names an entry of a directory if what follows holds no slash.
IsSlug-IsName :
    (slug rest : Text) → IsSlug slug → All (λ c. (c == b'/') ≡ false) rest → IsName (slug ++ rest)
unfolding is_empty text_eq
IsSlug-IsName [] rest h hr = absurd (empty_slug h.nonempty)
  where
    empty_slug : true ≡ false → ⊥
    empty_slug e = cc
IsSlug-IsName (c ∷ slug) rest h hr = record {
  nonempty = refl;
  not_dot = rw (slug_no_dot c h.chars.0);
  not_dotdot = rw (slug_no_dot c h.chars.0);
  no_slash = All-append _ (c ∷ slug) rest (All-map slug_no_slash (c ∷ slug) h.chars) hr;
}

-- The name of the credential file is one name: it cannot leave the credential directory.
pub file_name-IsName : (server_url profile : Text) → IsName (file_name server_url profile)
unfolding file_name
file_name-IsName server_url profile =
    IsSlug-IsName (slugify server_url) _ (slugify-IsSlug server_url) (
      refl,
      All-append _ (slugify profile) (codes ".json")
          (All-map slug_no_slash (slugify profile) (slugify-IsSlug profile).chars)
          (refl, (refl, (refl, (refl, (refl, tt))))),
    )
