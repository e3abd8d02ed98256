-- ===== src/Prelude/Trim.antt =====
-- What `trim` leaves: the text between the whitespace at its two ends.
use mathlib.Core.List.{reverse-append, reverse-reverse}
use zyris_docker.Prelude.Tests.{Bool-cases}
use zyris_docker.Prelude.Lists.{All, All-append, length, length-append}
use zyris_docker.Prelude.Text.{Text, trim, trim_matches, trim_start_matches, is_whitespace}
use Prim.Native.Nat.{ℕ, ◌≤◌}
use mathlib.Core.Path.{◌≡◌, refl, ap, sym, subst, ◌∙◌}
use mathlib.Core.Bool.{Bool, true, false}
use mathlib.Core.Logic.{inl, inr, ◌≢◌}
use mathlib.Core.List.{[], ◌∷◌, ◌++◌, reverse, reverse-cons}
use native.Mathlib.Omega.{arith}

module _ (p : ℕ → Bool) where
  -- Nothing to take off at the start.
  abbrev pub StartsClear : Text → Type 0
  StartsClear [] = Unit
  StartsClear (c ∷ s) = p c ≡ false

  pub start_clear : (s : Text) → StartsClear s → trim_start_matches p s ≡ s
  unfolding trim_start_matches
  start_clear [] h = refl
  start_clear (c ∷ s) h = rw h

  pub start_run :
      (pre s : Text)
      → All (λ c. p c ≡ true) pre
      → trim_start_matches p (pre ++ s) ≡ trim_start_matches p s
  unfolding trim_start_matches
  start_run [] s h = refl
  start_run (c ∷ pre) s h = rw h.0 (start_run pre s h.1)

  pub start-StartsClear : (s : Text) → StartsClear (trim_start_matches p s)
  unfolding trim_start_matches
  start-StartsClear [] = tt
  start-StartsClear (c ∷ s) = elim (Bool-cases (p c)) [
    | inl e ↦ rw e (start-StartsClear s)
    | inr e ↦ rw e e
  ]

  All-reverse : (s : Text) → All (λ c. p c ≡ true) s → All (λ c. p c ≡ true) (reverse s)
  All-reverse [] h = tt
  All-reverse (c ∷ s) h =
      rw (reverse-cons c s)
        (All-append (λ c. p c ≡ true) (reverse s) (c ∷ []) (All-reverse s h.1) (h.0, tt))

  -- Runs of matching characters at the two ends are taken off, and nothing else is.
  pub trim_matches-ends :
      (pre s post : Text)
      → All (λ c. p c ≡ true) pre
      → All (λ c. p c ≡ true) post
      → StartsClear s
      → StartsClear (reverse s)
      → s ≢ []
      → trim_matches p (pre ++ (s ++ post)) ≡ s
  unfolding trim_matches
  trim_matches-ends pre [] post hpre hpost first last ne = absurd (ne refl)
  trim_matches-ends pre (c ∷ s) post hpre hpost first last ne = rw (
    start_run pre (c ∷ s ++ post) hpre,
    start_clear (c ∷ s ++ post) first,
    reverse-append (c ∷ s) post,
    start_run (reverse post) (reverse (c ∷ s)) (All-reverse post hpost),
    start_clear (reverse (c ∷ s)) last,
    reverse-reverse (c ∷ s),
  )

pub trim_padded :
    (pre s post : Text)
    → All (λ c. is_whitespace c ≡ true) pre
    → All (λ c. is_whitespace c ≡ true) post
    → StartsClear is_whitespace s
    → StartsClear is_whitespace (reverse s)
    → s ≢ []
    → trim (pre ++ (s ++ post)) ≡ s
unfolding trim
trim_padded = trim_matches-ends is_whitespace

module _ {κ} (Q : ℕ → Type κ) (p : ℕ → Bool) where
  start-All : (s : Text) → All Q s → All Q (trim_start_matches p s)
  unfolding trim_start_matches
  start-All [] h = tt
  start-All (c ∷ s) h = elim (Bool-cases (p c)) [ inl e ↦ rw e (start-All s h.1) | inr e ↦ rw e h ]

  All-flip : (s : Text) → All Q s → All Q (reverse s)
  All-flip [] h = tt
  All-flip (c ∷ s) h =
      rw (reverse-cons c s) (All-append Q (reverse s) (c ∷ []) (All-flip s h.1) (h.0, tt))

  pub trim_matches-All : (s : Text) → All Q s → All Q (trim_matches p s)
  unfolding trim_matches
  trim_matches-All s h = All-flip _ (start-All _ (All-flip _ (start-All s h)))

module _ (p : ℕ → Bool) where
  length-start : (s : Text) → length (trim_start_matches p s) ≤ length s
  unfolding trim_start_matches
  length-start [] = omega arith
  length-start (c ∷ s) = ground (arith, length-start s)

  length-flip : (s : Text) → length (reverse s) ≡ length s
  length-flip [] = refl
  length-flip (c ∷ s) =
      ap length (reverse-cons c s)
      ∙ length-append (reverse s) (c ∷ [])
      ∙ omega (arith, length-flip s)

  pub length-trim_matches : (s : Text) → length (trim_matches p s) ≤ length s
  unfolding trim_matches
  length-trim_matches s = omega (
    arith,
    length-flip (trim_start_matches p (reverse (trim_start_matches p s))),
    length-start (reverse (trim_start_matches p s)),
    length-flip (trim_start_matches p s),
    length-start s,
  )

  -- Taking more off the end leaves a clear start clear.
  start_split : (s : Text) → (pre : Text) × (s ≡ pre ++ trim_start_matches p s)
  unfolding trim_start_matches
  start_split [] = ([], refl)
  start_split (c ∷ s) = elim (Bool-cases (p c)) [
    | inl e ↦ let (pre, same) = start_split s in (c ∷ pre, rw e (ap (◌∷◌ c) same))
    | inr e ↦ ([], rw e)
  ]

  front_clear : (s t : Text) → StartsClear p (s ++ t) → StartsClear p s
  front_clear [] t h = tt
  front_clear (c ∷ s) t h = h

  -- What is left begins and ends with no matching character.
  pub trim_matches-clear :
      (s : Text) → StartsClear p (trim_matches p s) × StartsClear p (reverse (trim_matches p s))
  unfolding trim_matches
  trim_matches-clear s =
      (starts, rw reverse-reverse (start-StartsClear p (reverse (trim_start_matches p s))))
    where
      front : Text
      front = trim_start_matches p s

      starts : StartsClear p (reverse (trim_start_matches p (reverse front)))
      starts =
          let (pre, same) = start_split (reverse front) in
          front_clear (reverse (trim_start_matches p (reverse front))) (reverse pre) (
            subst (StartsClear p)
              (sym (reverse-reverse front)
                ∙ ap reverse same
                ∙ reverse-append pre (trim_start_matches p (reverse front)))
              (start-StartsClear p s))
