-- ===== src/Runtime/Runner/Reenroll.antt =====
-- At most one re-enrollment between two connections.
use zyris_docker.Prelude.{
  ℕ, Bool, true, false, ◌≡◌, ◌≢◌, refl, Option, none, some, List, [], ◌∷◌, arith, Result, ok, err,
  Bool-cases, Option-cases, inl, inr,
}
use zyris_docker.Prelude.Text.{Text}
use zyris_docker.Runtime.Credentials.{
  CredentialsError, needs_operator, fatal, unavailable, token_prefix,
}
use zyris_docker.Runtime.Config.{RunConfig}
use zyris_docker.Runtime.Runner.Induction.{Keeps, run_keeps}
use zyris_docker.Runtime.Runner.{
  ConnectError, Refusal, reenroll, fatal_refusal, backoff_refusal, refusal_of, refused, Effect,
  connected, forgot_credential, waited, closed_by_us, Phase, dialling, forgetting, waiting, stopped,
  panicked, Loop, Event, dialled, start, on_bearer, on_refusal, on_dialled, on_closed, on_forgot,
  on_slept, on_stop, step, run, status,
}

-- Whether a credential has been forgotten since the last connection.
abbrev pub forgotten_since : List Effect → Bool
forgotten_since [] = false
forgotten_since (forgot_credential ∷ log) = true
forgotten_since (connected c ∷ log) = false
forgotten_since (waited w ∷ log) = forgotten_since log
forgotten_since (closed_by_us c ∷ log) = forgotten_since log

-- No credential is forgotten twice with no connection in between.
abbrev pub Alternates : List Effect → Type 0
Alternates [] = Unit
Alternates (forgot_credential ∷ log) = (forgotten_since log ≡ false) × Alternates log
Alternates (connected c ∷ log) = Alternates log
Alternates (waited w ∷ log) = Alternates log
Alternates (closed_by_us c ∷ log) = Alternates log

pub record Once (s : Loop) : Type 0 where
  pub alternates : Alternates s.log
  pub flagged : forgotten_since s.log ≡ true → s.reenrolled_after_refusal ≡ true
  pub spending :
      (e : ConnectError)
      → s.phase ≡ forgetting e
      → (forgotten_since s.log ≡ false) × (s.reenrolled_after_refusal ≡ true)

-- A handler that leaves the log and the flag, and does not go to `forgetting`.
Once-phase :
    (s : Loop) (phase : Phase)
    → ((e : ConnectError) → phase ≢ forgetting e)
    → Once s
    → Once (record s { phase = phase })
Once-phase s phase ne v = record {
  alternates = v.alternates;
  flagged = v.flagged;
  spending = λ e h. absurd (ne e h);
}

module _ (config : RunConfig) (shown : ConnectError → Text) where
  bearer-Once :
      (s : Loop) (r : Result CredentialsError Text) → Once s → Once (on_bearer config shown s r)
  unfolding on_bearer
  bearer-Once s (ok b) v = elim (Option-cases (token_prefix b)) [
    | inl e ↦ rw (e, on_bearer) (Once-phase s panicked (λ x h. cc) v)
    | inr (p, e) ↦ rw (e, on_bearer) (Once-phase s (dialling b) (λ x h. cc) v)
  ]
  bearer-Once s (err (unavailable m)) v = Once-phase s waiting (λ x h. cc) v
  bearer-Once s (err (needs_operator m)) v = Once-phase s _ (λ x h. cc) v
  bearer-Once s (err (fatal m)) v = Once-phase s _ (λ x h. cc) v

  refusal-Once :
      (s : Loop) (e : ConnectError) (r : Refusal) → Once s → Once (on_refusal config shown s e r)
  unfolding on_refusal
  refusal-Once s e reenroll v = elim (Bool-cases s.reenrolled_after_refusal) [
    | inl h ↦ rw h (record { alternates = v.alternates; flagged = λ f. refl; spending = λ x p. cc })
    | inr h ↦ rw h (record {
      alternates = v.alternates;
      flagged = λ f. refl;
      spending = λ x p. (not_flagged h, refl);
    })
  ]
    where
      not_flagged : s.reenrolled_after_refusal ≡ false → forgotten_since s.log ≡ false
      not_flagged h = elim (Bool-cases (forgotten_since s.log)) [
        | inl f ↦ absurd (ground (arith, v.flagged f, h))
        | inr f ↦ f
      ]
  refusal-Once s e fatal_refusal v = Once-phase s _ (λ x h. cc) v
  refusal-Once s e backoff_refusal v = Once-phase s waiting (λ x h. cc) v

  dialled-Once :
      (s : Loop) (r : Result ConnectError ℕ) → Once s → Once (on_dialled config shown s r)
  unfolding on_dialled
  dialled-Once s (ok c) v = record {
    alternates = v.alternates;
    flagged = λ f. cc;
    spending = λ e h. cc;
  }
  dialled-Once s (err e) v = refusal-Once s e (refusal_of e) v

  forgot-Once :
      (s : Loop) (e : ConnectError) (r : Result CredentialsError Bool)
      → s.phase ≡ forgetting e
      → Once s
      → Once (on_forgot config shown s e r)
  unfolding on_forgot
  forgot-Once s e (ok true) p v = record {
    alternates = ((v.spending e p).0, v.alternates);
    flagged = λ f. (v.spending e p).1;
    spending = λ x h. cc;
  }
  forgot-Once s e (ok false) p v = Once-phase s _ (λ x h. cc) v
  forgot-Once s e (err (unavailable m)) p v = record {
    alternates = v.alternates;
    flagged = λ f. ground (arith, (v.spending e p).0, f);
    spending = λ x h. cc;
  }
  forgot-Once s e (err (needs_operator m)) p v = Once-phase s _ (λ x h. cc) v
  forgot-Once s e (err (fatal m)) p v = Once-phase s _ (λ x h. cc) v

  slept-Once : (s : Loop) (hash : ℕ) → Once s → Once (on_slept config shown s hash)
  unfolding on_slept
  slept-Once s hash v = record {
    alternates = v.alternates;
    flagged = v.flagged;
    spending = λ x h. cc;
  }

  closed-Once : (s : Loop) (up : ℕ) → Once s → Once (on_closed config shown s up)
  unfolding on_closed
  closed-Once s up v = record {
    alternates = v.alternates;
    flagged = v.flagged;
    spending = λ x h. cc;
  }

  stop-Once : (s : Loop) → Once s → Once (on_stop config shown s)
  unfolding on_stop
  stop-Once s v = elim (Option-cases s.live) [
    | inl e ↦ rw e (record { alternates = v.alternates; flagged = v.flagged; spending = λ x h. cc })
    | inr (c, e) ↦
        rw e (record { alternates = v.alternates; flagged = v.flagged; spending = λ x h. cc })
  ]

  Once-keeps : Keeps config shown Once
  Once-keeps = record {
    bearer = λ s r _ v. bearer-Once s r v;
    dial = λ s b r _ v. dialled-Once s r v;
    close = λ s c up _ v. closed-Once s up v;
    forget = forgot-Once;
    sleep = λ s hash _ v. slept-Once s hash v;
    stop = stop-Once;
  }

  start-Once : (described : Option Text) → Once (start config shown described)
  unfolding start
  start-Once none = record { alternates = tt; flagged = λ f. cc; spending = λ x h. cc }
  start-Once (some d) = record { alternates = tt; flagged = λ f. cc; spending = λ x h. cc }

  run-Once :
      (described : Option Text) (events : List Event)
      → Once (run config shown (start config shown described) events)
  run-Once described events = run_keeps config shown Once Once-keeps _ events (start-Once described)

  -- In every run, between two credentials that are forgotten there is a connection.
  pub run-Alternates :
      (described : Option Text) (events : List Event)
      → Alternates (run config shown (start config shown described) events).log
  run-Alternates described events = (run-Once described events).alternates

  -- Once a credential has been forgotten with no connection since, the next refusal ends the loop:
  -- it is reported, and the process leaves with status 1.
  pub second_refusal_stops :
      (described : Option Text) (events : List Event) (bearer : Text) (error : ConnectError)
      → (run config shown (start config shown described) events).phase ≡ dialling bearer
      → forgotten_since (run config shown (start config shown described) events).log ≡ true
      → refusal_of error ≡ reenroll
      → let s = run config shown (start config shown described) events in
        ((step config shown s (dialled (err error))).phase ≡ stopped (err (refused (shown error))))
        × (status (err (refused (shown error))) ≡ 1)
  unfolding step on_dialled status
  second_refusal_stops described events bearer error dials forgot is_reenroll =
      (ground (arith, dials, is_reenroll, (run-Once described events).flagged forgot), refl)
