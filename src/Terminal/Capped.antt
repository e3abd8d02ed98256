-- ===== src/Terminal/Capped.antt =====
-- `read_capped` against what the stream carries.
use zyris_docker.Prelude.{
  ℕ, zero, suc, ◌-◌, ◌≡◌, refl, sym, subst, true, false, min, List, [], ◌∷◌, ◌++◌, append-nil,
  append_assoc, ltb, ◌==◌, take, length, length-append, if◌then◌else◌, Bool-cases, inl, inr, arith,
}
use zyris_docker.Terminal.Defs.{ReadAnswer, bytes_read, read_failed, read_loop, read_capped}

-- The bytes that a stream carries until its end or its first error.
abbrev pub arrived : List ReadAnswer → List ℕ
arrived [] = []
arrived (read_failed ∷ answers) = []
arrived (bytes_read buf ∷ answers) =
    let rest = arrived answers in if length buf == 0 then [] else buf ++ rest

length-take : (n : ℕ) (xs : List ℕ) → length (take n xs) ≡ min n (length xs)
length-take zero xs = omega arith
length-take (suc n) [] = omega arith
length-take (suc n) (x ∷ xs) = omega (arith, length-take n xs)

take-nil : (n : ℕ) → ◌≡◌ {A = List ℕ} (take n []) []
take-nil zero = refl
take-nil (suc n) = refl

take-append : (n : ℕ) (xs ys : List ℕ) → take n (xs ++ ys) ≡ take n xs ++ take (n - length xs) ys
take-append n [] ys = let e : n - 0 ≡ n = omega arith in rw (take-nil n, e) refl
take-append zero (x ∷ xs) ys = let e : 0 - suc (length xs) ≡ 0 = omega arith in rw e refl
take-append (suc n) (x ∷ xs) ys =
    let e : suc n - suc (length xs) ≡ n - length xs = omega arith in
    rw (e, take-append n xs ys) refl

take-min : (n : ℕ) (xs : List ℕ) → take (min (length xs) n) xs ≡ take n xs
take-min n [] = rw (take-nil n, take-nil (min 0 n)) refl
take-min zero (x ∷ xs) = let e : min (suc (length xs)) 0 ≡ 0 = omega arith in rw e refl
take-min (suc n) (x ∷ xs) =
    let e : min (suc (length xs)) (suc n) ≡ suc (min (length xs) n) = omega arith in
    rw (e, take-min n xs) refl

-- What a turn of the loop keeps of the next bytes is what the cap has room for.
kept :
    (cap : ℕ) (seen buf : List ℕ)
    → (if ltb 0 (cap - length (take cap seen))
        then take cap seen ++ take (min (length buf) (cap - length (take cap seen))) buf
        else take cap seen)
      ≡ take cap (seen ++ buf)
kept cap seen buf =
    let room : cap - length (take cap seen) ≡ cap - length seen =
      omega (arith, length-take cap seen) in
    rw (room, take-min (cap - length seen) buf, take-append cap seen buf)
      elim (Bool-cases (ltb 0 (cap - length seen))) [
        | inl e ↦ rw e refl
        | inr e ↦
            let full : cap - length seen ≡ 0 = ground arith in
            rw full (sym (append-nil (take cap seen)))
      ]

surplus :
    (cap : ℕ) (seen buf : List ℕ)
    → (length buf == 0) ≡ false
    → (if ltb (cap - length (take cap seen)) (length buf) then true else ltb cap (length seen))
      ≡ ltb cap (length (seen ++ buf))
surplus cap seen buf h = ground (arith, length-take cap seen, length-append seen buf)

read_loop_lem :
    (cap : ℕ) (answers : List ReadAnswer) (seen : List ℕ)
    → read_loop cap answers (take cap seen) (ltb cap (length seen))
      ≡ (take cap (seen ++ arrived answers), ltb cap (length (seen ++ arrived answers)))
unfolding read_loop
read_loop_lem cap [] seen = rw (append-nil seen) refl
read_loop_lem cap (read_failed ∷ answers) seen = rw (append-nil seen) refl
read_loop_lem cap (bytes_read buf ∷ answers) seen =
    let next = read_loop_lem cap answers (seen ++ buf) in
    elim (Bool-cases (length buf == 0)) [
      | inl e ↦ rw (e, append-nil seen) refl
      | inr e ↦
          rw
            (
              e,
              kept cap seen buf,
              surplus cap seen buf e,
              next,
              append_assoc seen buf (arrived answers),
            )
            refl
    ]

-- `read_capped` answers with the first `cap` bytes that the stream carries until its end or its first
-- error, and with whether the stream carried more.
pub read_capped_lem :
    (cap : ℕ) (answers : List ReadAnswer)
    → read_capped cap answers ≡ (take cap (arrived answers), ltb cap (length (arrived answers)))
unfolding read_capped
read_capped_lem cap answers =
    let nothing : ltb cap 0 ≡ false = ground arith in
    subst
      (λ b.
        read_loop cap answers [] b
        ≡ (take cap (arrived answers), ltb cap (length (arrived answers))))
      nothing
      (subst
        (λ out.
          read_loop cap answers out (ltb cap 0)
          ≡ (take cap (arrived answers), ltb cap (length (arrived answers))))
        (take-nil cap) (read_loop_lem cap answers []))
