-- ===== src/Config/Numbers.antt =====
-- Numbers that the environment gives.
use native.Mathlib.Nat.{pow-succ'}
use zyris_docker.Prelude.{
  leb→le, false, All, All-append, ℕ, zero, suc, ◌+◌, ◌-◌, ◌*◌, ◌/◌, ◌%◌, ◌^◌, ◌≤◌, ◌<◌, ◌≡◌, ◌≢◌,
  refl, ap, ◌&&◌, true, Option, none, some, [], ◌∷◌, ◌++◌, leb, ◌==◌, Bool-cases, Option-cases, inl,
  inr, arith,
}
use zyris_docker.Prelude.Text.{is_whitespace, is_empty, Text, codes}
use zyris_docker.Runtime.Credentials.{Env}
use zyris_docker.Runtime.Store.{decimal, decimal_digits}
use zyris_docker.Config.Defs.{
  digits_value, parse_u64, env_str, parsed, env_duration_secs, max_output_bytes,
}

abbrev with_digit : ℕ → Option ℕ → Option ℕ
with_digit d none = none
with_digit d (some v) = some (v * 10 + d)

digits_value-append :
    (acc : ℕ) (t : Text) (d : ℕ)
    → d ≤ 9
    → digits_value acc (t ++ (b'0' + d) ∷ []) ≡ with_digit d (digits_value acc t)
unfolding digits_value
digits_value-append acc [] d h = ground arith
digits_value-append acc (c ∷ t) d h =
    let ih = digits_value-append (acc * 10 + (c - b'0')) t d h in
    elim (Bool-cases (leb b'0' c && leb c b'9')) [ inl e ↦ rw (e, ih) refl | inr e ↦ rw e refl ]

power : (n : ℕ) → 10 ^ suc n ≡ 10 * 10 ^ n
power n = pow-succ' 10 n

no_plus : (c : ℕ) (s : Text) (n : ℕ) → (c == b'+') ≡ true → digits_value 0 (c ∷ s) ≢ some n
unfolding digits_value
no_plus c s n plus e = ground arith

digits_value-decimal_digits :
    (fuel n : ℕ) → n < 10 ^ fuel → digits_value 0 (decimal_digits fuel n) ≡ some n
unfolding digits_value decimal_digits
digits_value-decimal_digits zero n h = ground arith
digits_value-decimal_digits (suc fuel) n h = elim (Bool-cases (leb n 9)) [
  | inl e ↦ rw e ground arith
  | inr e ↦
      let smaller : n / 10 < 10 ^ fuel = omega (arith, power fuel) in
      let last : n % 10 ≤ 9 = omega arith in
      rw e rw
        (
          digits_value-append 0 (decimal_digits fuel (n / 10)) (n % 10) last,
          digits_value-decimal_digits fuel (n / 10) smaller,
        )
        (ap some (omega arith))
]

-- A text that reads as digits reads as a number.
parse_u64-digits :
    (t : Text) (n : ℕ) → t ≢ [] → digits_value 0 t ≡ some n → n < 2 ^ 64 → parse_u64 t ≡ some n
unfolding parse_u64
parse_u64-digits [] n h e bound = absurd (h refl)
parse_u64-digits (c ∷ s) n h e bound = elim (Bool-cases (c == b'+')) [
  | inl plus ↦ absurd (no_plus c s n plus e)
  | inr no_sign ↦ rw (no_sign, e) ground arith
]

append-nonempty : (t : Text) (c : ℕ) → t ++ c ∷ [] ≢ []
append-nonempty [] c e = cc
append-nonempty (a ∷ t) c e = cc

digits-nonempty : (fuel n : ℕ) → decimal_digits (suc fuel) n ≢ []
unfolding decimal_digits
digits-nonempty fuel n = elim (Bool-cases (leb n 9)) [
  | inl e ↦ rw e (λ h. cc)
  | inr e ↦ rw e (append-nonempty (decimal_digits fuel (n / 10)) (b'0' + n % 10))
]

decimal-nonempty : (n : ℕ) → decimal n ≢ []
unfolding decimal
decimal-nonempty n = digits-nonempty 9 n

empty_sound : (t : Text) → is_empty t ≡ true → t ≡ []
unfolding is_empty
empty_sound [] h = refl
empty_sound (c ∷ t) h = cc

pub parse_u64-decimal_digits :
    (fuel n : ℕ) → n < 10 ^ suc fuel → n < 2 ^ 64 → parse_u64 (decimal_digits (suc fuel) n) ≡ some n
parse_u64-decimal_digits fuel n h bound =
    parse_u64-digits (decimal_digits (suc fuel) n) n (digits-nonempty fuel n)
      (digits_value-decimal_digits (suc fuel) n h) bound

pub parse_u64-decimal : (n : ℕ) → n < 10 ^ 10 → parse_u64 (decimal n) ≡ some n
unfolding decimal
parse_u64-decimal n h = parse_u64-decimal_digits 9 n h (omega arith)

digit_clear : (d : ℕ) → d ≤ 9 → is_whitespace (b'0' + d) ≡ false
unfolding is_whitespace
digit_clear d h = ground arith

-- What holds of the ten digits holds of every character of a decimal text.
digits-All :
    (P : ℕ → Type 0) (digit : (d : ℕ) → d ≤ 9 → P (b'0' + d)) (fuel n : ℕ)
    → All P (decimal_digits fuel n)
unfolding decimal_digits
digits-All P digit zero n = tt
digits-All P digit (suc fuel) n = elim (Bool-cases (leb n 9)) [
  | inl e ↦ rw e (digit n (leb→le n 9 e), tt)
  | inr e ↦ rw e (
      All-append P (decimal_digits fuel (n / 10)) ((b'0' + n % 10) ∷ [])
        (digits-All P digit fuel (n / 10)) (digit (n % 10) (omega arith), tt))
]

pub decimal-All :
    (P : ℕ → Type 0) (digit : (d : ℕ) → d ≤ 9 → P (b'0' + d)) (n : ℕ) → All P (decimal n)
unfolding decimal
decimal-All P digit n = digits-All P digit 10 n

pub decimal_nonempty : (n : ℕ) → is_empty (decimal n) ≡ false
unfolding is_empty
decimal_nonempty n = elim (Bool-cases (is_empty (decimal n))) [
  | inr e ↦ e
  | inl e ↦ absurd (decimal-nonempty n (empty_sound (decimal n) e))
]

-- The decimal text of a number is not empty and has no whitespace in it.
pub decimal_clear :
    (n : ℕ) → (is_empty (decimal n) ≡ false) × All (λ c. is_whitespace c ≡ false) (decimal n)
decimal_clear n = (decimal_nonempty n, decimal-All (λ c. is_whitespace c ≡ false) digit_clear n)

-- A duration given in decimal digits, of at most ten, is the number that the digits name.
pub duration-decimal :
    (env : Env) (name : Text) (fallback n : ℕ)
    → n < 10 ^ 10
    → env_str env name ≡ some (decimal n)
    → env_duration_secs env name fallback ≡ n
unfolding env_duration_secs decimal
duration-decimal env name fallback n h e = rw (e, parse_u64-decimal n h) refl

-- However it is set, the cap on a stream of output is not zero.
pub max_output_bytes-positive : (env : Env) → 0 < max_output_bytes env
unfolding max_output_bytes
max_output_bytes-positive env =
    elim (Option-cases (parsed env (env_str env (codes "ZYRISD_MAX_OUTPUT_BYTES")))) [
      | inl e ↦ rw e omega arith
      | inr (v, e) ↦ rw e ground arith
    ]
