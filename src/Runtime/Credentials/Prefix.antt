-- ===== src/Runtime/Credentials/Prefix.antt =====
-- `token_prefix`: what of a credential reaches a log, and when slicing it panics.
use zyris_docker.Prelude.{
  ℕ, zero, suc, ◌+◌, ◌-◌, ◌≤◌, ◌<◌, min, ◌≡◌, refl, ◌⊎◌, inl, inr, none, some, [], ◌∷◌, ◌++◌, arith,
  Bool-cases, Option-cases, All, length, take, ◌==◌,
}
use zyris_docker.Prelude.Text.{Text, len, len_utf8}
use zyris_docker.Runtime.Credentials.{slice_to, token_prefix}

len_utf8-pos : (c : ℕ) → (1 ≤ len_utf8 c) × (len_utf8 c ≤ 4)
unfolding len_utf8
len_utf8-pos c = ground arith

slice_to-inv :
    (n c : ℕ) (s p : Text)
    → slice_to n (c ∷ s) ≡ some p
    → ((n ≡ 0) × (p ≡ []))
      ⊎ ((q : Text) × (len_utf8 c ≤ n) × (slice_to (n - len_utf8 c) s ≡ some q) × (p ≡ c ∷ q))
unfolding slice_to
slice_to-inv n c s p e = elim (Option-cases (slice_to (n - len_utf8 c) s)) [
  | inl f ↦ inl (ground (arith, f), ground (arith, f))
  | inr (q, f) ↦ elim (Bool-cases (n == 0)) [
    | inl z ↦ inl (ground (arith, z), ground (arith, z))
    | inr z ↦ inr (q, ground (arith, z, f), f, ground (arith, z, f))
  ]
]

-- The slice is a prefix of exactly `n` bytes.
slice_to-prefix :
    (n : ℕ) (s p : Text) → slice_to n s ≡ some p → (rest : Text) × (s ≡ p ++ rest) × (len p ≡ n)
unfolding len
slice_to-prefix n [] p e = ([], unfold slice_to in ground arith, unfold slice_to in ground arith)
slice_to-prefix n (c ∷ s) p e = elim (slice_to-inv n c s p e) [
  | inl (zero_bytes, empty) ↦ (c ∷ s, rw empty, rw (empty, zero_bytes))
  | inr (q, fits, f, cons) ↦
      let (rest, split, bytes) = slice_to-prefix (n - len_utf8 c) s q f in
      (rest, rw (cons, split), rw cons (omega (arith, bytes, fits)))
]

-- What is shown is a prefix of at most twelve bytes, so a longer credential is never shown whole.
pub token_prefix-prefix :
    (token shown : Text)
    → token_prefix token ≡ some shown
    → (rest : Text) × (token ≡ shown ++ rest) × (len shown ≡ min (len token) 12)
unfolding token_prefix
token_prefix-prefix token shown e = slice_to-prefix (min (len token) 12) token shown e

len_utf8-ascii : (c : ℕ) → c < 128 → len_utf8 c ≡ 1
unfolding len_utf8
len_utf8-ascii c h = ground arith

len-append : (s t : Text) → len (s ++ t) ≡ len s + len t
unfolding len
len-append [] t = omega arith
len-append (c ∷ s) t = omega (arith, len-append s t)

len-ascii : (s : Text) → All (λ c. c < 128) s → len s ≡ length s
unfolding len
len-ascii [] h = refl
len-ascii (c ∷ s) h = omega (arith, len_utf8-ascii c h.0, len-ascii s h.1)

-- In the middle of a character the slice panics.
slice_to_inside :
    (pre : Text) (c : ℕ) (rest : Text) (n : ℕ)
    → All (λ d. d < 128) pre
    → length pre < n
    → n < length pre + len_utf8 c
    → slice_to n (pre ++ c ∷ rest) ≡ none
unfolding slice_to
slice_to_inside [] c rest n h lo hi = ground arith
slice_to_inside (d ∷ pre) c rest n h lo hi =
    let one = len_utf8-ascii d h.0 in
    let deeper : slice_to (n - len_utf8 d) (pre ++ c ∷ rest) ≡ none =
      rw one (slice_to_inside pre c rest (n - 1) h.1 (omega arith) (omega arith)) in
    ground (arith, one, deeper)

-- A token of fewer than twelve ASCII characters and then a character that runs past byte 12 makes
-- the prefix panic.
pub token_prefix_panics :
    (pre : Text) (c : ℕ) (rest : Text)
    → All (λ d. d < 128) pre
    → length pre < 12
    → 12 < length pre + len_utf8 c
    → token_prefix (pre ++ c ∷ rest) ≡ none
unfolding token_prefix
token_prefix_panics pre c rest h lo hi = rw long (slice_to_inside pre c rest 12 h lo hi)
  where
    long : min (len (pre ++ c ∷ rest)) 12 ≡ 12
    long = unfold len in omega (arith, len-append pre (c ∷ rest), len-ascii pre h, hi)

slice_to-ascii :
    (s : Text) (n : ℕ) → All (λ d. d < 128) s → n ≤ length s → slice_to n s ≡ some (take n s)
unfolding slice_to
slice_to-ascii [] zero h fits = refl
slice_to-ascii [] (suc n) h fits = elim fits [ ]
slice_to-ascii (c ∷ s) zero h fits = ground arith
slice_to-ascii (c ∷ s) (suc n) h fits =
    ground (arith, len_utf8-ascii c h.0, slice_to-ascii s n h.1 (omega arith))

-- Of an ASCII token the first twelve characters are shown, with no panic.
pub token_prefix-ascii :
    (token : Text)
    → All (λ d. d < 128) token
    → token_prefix token ≡ some (take (min (length token) 12) token)
unfolding token_prefix
token_prefix-ascii token h =
    rw (len-ascii token h) (slice_to-ascii token (min (length token) 12) h (omega arith))
