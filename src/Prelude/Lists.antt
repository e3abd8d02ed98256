-- ===== src/Prelude/Lists.antt =====
-- Lists over the native numbers, Boolean searches, and predicates that hold of all or some entries.
use Prim.Native.Nat.{ℕ, zero, suc, ◌+◌}
use mathlib.Core.Path.{◌≡◌, refl}
use mathlib.Core.Logic.{◌⊎◌, inl, inr}
use mathlib.Core.Bool.{Bool, true, false, ◌&&◌, ◌||◌}
use mathlib.Core.Option.{Option, none, some}
use mathlib.Core.List.{List, [], ◌∷◌, ◌++◌}
use native.Mathlib.Omega.{arith}
use zyris_docker.Prelude.Tests.{if◌then◌else◌, Bool-cases}

module _ {ℓ} {A : Type ℓ} where
  abbrev pub length : List A → ℕ
  length [] = 0
  length (x ∷ xs) = suc (length xs)

  pub length-append : (xs ys : List A) → length (xs ++ ys) ≡ length xs + length ys
  length-append [] ys = omega arith
  length-append (x ∷ xs) ys = omega (arith, length-append xs ys)

  abbrev pub get_elem? : List A → ℕ → Option A
  get_elem? [] i = none
  get_elem? (x ∷ xs) zero = some x
  get_elem? (x ∷ xs) (suc i) = get_elem? xs i

  abbrev pub take : ℕ → List A → List A
  take zero xs = []
  take (suc n) [] = []
  take (suc n) (x ∷ xs) = x ∷ take n xs

  abbrev pub head? : List A → Option A
  head? [] = none
  head? (x ∷ xs) = some x

  -- `iter().any(p)`
  abbrev pub any : (A → Bool) → List A → Bool
  any p [] = false
  any p (x ∷ xs) = p x || any p xs

  abbrev pub all : (A → Bool) → List A → Bool
  all p [] = true
  all p (x ∷ xs) = p x && all p xs

  -- `iter().filter(p)`
  abbrev pub filterb : (A → Bool) → List A → List A
  filterb p [] = []
  filterb p (x ∷ xs) = let rest = filterb p xs in if p x then x ∷ rest else rest

module _ {ℓ κ} {A : Type ℓ} (P : A → Type κ) where
  abbrev pub All : List A → Type κ
  All [] = Unit
  All (x ∷ xs) = P x × All xs

  pub All-append : (xs ys : List A) → All xs → All ys → All (xs ++ ys)
  All-append [] ys hx hy = hy
  All-append (x ∷ xs) ys hx hy = (hx.0, All-append xs ys hx.1 hy)

module _ {ℓ} {A : Type ℓ} (P : A → Type 0) where
  abbrev pub Any : List A → Type 0
  Any [] = ⊥
  Any (x ∷ xs) = P x ⊎ Any xs

module _ {ℓ κ} {A : Type ℓ} {P Q : A → Type κ} (f : (x : A) → P x → Q x) where
  pub All-map : (xs : List A) → All P xs → All Q xs
  All-map [] h = tt
  All-map (x ∷ xs) h = (f x h.0, All-map xs h.1)

module _ {ℓ} {A : Type ℓ} {P : A → Type 0} (p : A → Bool) where
  pub Any-any : (sound : (x : A) → p x ≡ true → P x) (xs : List A) → any p xs ≡ true → Any P xs
  Any-any sound [] h = cc
  Any-any sound (x ∷ xs) h = elim (Bool-cases (p x)) [
    | inl e ↦ inl (sound x e)
    | inr e ↦ inr (Any-any sound xs (ground (arith, e)))
  ]

  pub any_of_Any : (whole : (x : A) → P x → p x ≡ true) (xs : List A) → Any P xs → any p xs ≡ true
  any_of_Any whole [] h = absurd h
  any_of_Any whole (x ∷ xs) (inl h) = rw (whole x h)
  any_of_Any whole (x ∷ xs) (inr h) = ground (arith, any_of_Any whole xs h)

  -- A search that finds nothing refutes the predicate everywhere.
  pub All-not_any :
      (whole : (x : A) → P x → p x ≡ true) (xs : List A) → any p xs ≡ false → All (λ x. ¬ P x) xs
  All-not_any whole [] h = tt
  All-not_any whole (x ∷ xs) h =
      (λ hx. ground (arith, whole x hx), All-not_any whole xs (ground arith))

  pub not_any_of_All :
      (sound : (x : A) → p x ≡ true → P x) (xs : List A) → All (λ x. ¬ P x) xs → any p xs ≡ false
  not_any_of_All sound [] h = refl
  not_any_of_All sound (x ∷ xs) h = elim (Bool-cases (p x)) [
    | inl e ↦ absurd (h.0 (sound x e))
    | inr e ↦ rw e (not_any_of_All sound xs h.1)
  ]
