-- ===== src/Enroll/Renewals.antt =====
-- How many codes an enrollment shows, and that it gives up.
use zyris_docker.Prelude.{
  ℕ, ◌+◌, ◌≤◌, ◌≡◌, ◌⊎◌, ap, Option, none, some, List, [], ◌∷◌, ltb, Result, ok, err, arith, All,
  if◌then◌else◌, Bool-cases, Result-cases, inl, inr,
}
use zyris_docker.Prelude.Text.{Text}
use zyris_docker.Runtime.Credentials.{CredentialsError, needs_operator}
use zyris_docker.Runtime.Credential.{Credential}
use zyris_docker.Runtime.Store.{CredentialStore}
use zyris_docker.Enroll.Defs.{
  EnrollError, Progress, waiting, progress_lapsed, progress_denied, granted, max_renewals,
  nobody_approved, Turn, Notice, show_code, authorized_notice, lapsed_notice, denied_notice, Grant,
  notify, on_granted, enroll_loop, enroll,
}

-- The codes that were shown.
abbrev pub codes_shown : List Notice → ℕ
codes_shown [] = 0
codes_shown (show_code ∷ notices) = codes_shown notices + 1
codes_shown (authorized_notice ∷ notices) = codes_shown notices
codes_shown (lapsed_notice ∷ notices) = codes_shown notices
codes_shown (denied_notice ∷ notices) = codes_shown notices

module _ (store : CredentialStore) (shown : EnrollError → Text) where
  granted_shows_none :
      (c : Credential) (g : Grant store)
      → codes_shown (on_granted store shown c g).1.notices ≡ codes_shown g.notices
  unfolding on_granted
  granted_shows_none c g = elim (Result-cases (store.save c g.stored).0) [
    | inl (a, e) ↦ rw e
    | inr (x, e) ↦ rw e
  ]

  loop_shows :
      (renewals : ℕ) (turns : List Turn) (g : Grant store)
      → renewals ≤ max_renewals
      → codes_shown (enroll_loop store shown renewals turns g).1.notices + renewals
        ≤ codes_shown g.notices + max_renewals
  unfolding enroll_loop
  loop_shows renewals [] g h = omega arith
  loop_shows renewals (turn ∷ turns) g h =
      let after_wait = loop_shows renewals turns g in
      let after_renewal =
        loop_shows (renewals + 1) turns (notify store show_code (notify store lapsed_notice g)) in
      elim (Result-cases turn.polled) [
        | inr (x, e) ↦ rw e omega arith
        | inl (waiting, e) ↦ rw e (after_wait h)
        | inl (granted c, e) ↦ rw (e, granted_shows_none c g) omega arith
        | inl (progress_denied, e) ↦ rw e omega arith
        | inl (progress_lapsed, e) ↦ rw e elim (Bool-cases (ltb max_renewals (renewals + 1))) [
          | inl h2 ↦ rw h2 omega arith
          | inr h2 ↦ rw h2 elim (Result-cases turn.renewed) [
            | inr (x, e2) ↦ rw e2 omega arith
            | inl (a, e2) ↦ rw e2 omega (arith, after_renewal (ground arith))
          ]
        ]
      ]

  -- However the server answers, an enrollment shows at most four codes.
  pub enroll_shows :
      (first : Result EnrollError (Unit {0})) (turns : List Turn) (g : Grant store)
      → codes_shown (enroll store shown first turns g).1.notices ≤ codes_shown g.notices + 4
  unfolding enroll
  enroll_shows (err e) turns g = omega arith
  enroll_shows (ok _) turns g = omega (arith, loop_shows 0 turns (notify store show_code g))

-- A turn at which nobody has answered yet: the code still stands, or it lapsed and was renewed.
abbrev pub Unanswered : Turn → Type 0
Unanswered turn =
    (turn.polled ≡ ok waiting) ⊎ ((turn.polled ≡ ok progress_lapsed) × (turn.renewed ≡ ok tt))

abbrev pub is_lapse : Result EnrollError Progress → ℕ
is_lapse (ok progress_lapsed) = 1
is_lapse (ok waiting) = 0
is_lapse (ok progress_denied) = 0
is_lapse (ok (granted c)) = 0
is_lapse (err e) = 0

-- How many codes lapsed.
abbrev pub lapses : List Turn → ℕ
lapses [] = 0
lapses (turn ∷ turns) = is_lapse turn.polled + lapses turns

module _ (store : CredentialStore) (shown : EnrollError → Text) where
  abbrev gave_up : ℕ → Option (Result CredentialsError Credential)
  gave_up lapsed =
      if ltb max_renewals lapsed then some (err (needs_operator nobody_approved)) else none

  loop_gives_up :
      (renewals : ℕ) (turns : List Turn) (g : Grant store)
      → renewals ≤ max_renewals
      → All Unanswered turns
      → (enroll_loop store shown renewals turns g).0 ≡ gave_up (renewals + lapses turns)
  unfolding enroll_loop
  loop_gives_up renewals [] g h all = ground arith
  loop_gives_up renewals (turn ∷ turns) g h (inl e, all) =
      rw (e, loop_gives_up renewals turns g h all) (ap gave_up (omega arith))
  loop_gives_up renewals (turn ∷ turns) g h (inr (e, e2), all) =
      let after_renewal =
        loop_gives_up (renewals + 1) turns
          (notify store show_code (notify store lapsed_notice g)) in
      rw (e, e2) ground (arith, after_renewal)

  -- While nobody answers, `enroll` goes on until the fourth code has lapsed, and at the fourth it
  -- gives up with an error that asks for the operator.
  pub enroll_gives_up :
      (turns : List Turn) (g : Grant store)
      → All Unanswered turns
      → (enroll store shown (ok tt) turns g).0
        ≡ (if ltb 3 (lapses turns) then some (err (needs_operator nobody_approved)) else none)
  unfolding enroll
  enroll_gives_up turns g all =
      rw (loop_gives_up 0 turns (notify store show_code g) (omega arith) all)
        (ap gave_up (omega arith))
