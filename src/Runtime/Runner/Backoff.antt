-- ===== src/Runtime/Runner/Backoff.antt =====
-- How long the dial loop waits.
use zyris_docker.Prelude.{
  ℕ, ◌*◌, ◌≤◌, Bool, true, false, Option, List, [], ◌∷◌, arith, Result, ok, err, Option-cases, inl,
  inr,
}
use zyris_docker.Prelude.Text.{Text}
use zyris_docker.Runtime.Credentials.{CredentialsError}
use zyris_docker.Runtime.Config.{RunConfig}
use zyris_docker.Runtime.Runner.Induction.{Keeps, run_keeps}
use zyris_docker.Runtime.Runner.{
  ConnectError, Effect, connected, forgot_credential, waited, closed_by_us, Loop, Event, jitter,
  start, on_bearer, on_dialled, on_closed, on_forgot, on_slept, on_stop, run,
}

-- ±20% of the base, in microseconds.
pub jitter_bounds :
    (base hash : ℕ) → (base * 800 ≤ jitter base hash) × (jitter base hash ≤ base * 1199)
unfolding jitter
jitter_bounds base hash = (grind arith, grind arith)

-- Every wait of a log lies in the range.
abbrev pub WaitsWithin : ℕ → ℕ → List Effect → Type 0
WaitsWithin lo hi [] = Unit
WaitsWithin lo hi (waited w ∷ log) = (lo ≤ w) × (w ≤ hi) × WaitsWithin lo hi log
WaitsWithin lo hi (connected c ∷ log) = WaitsWithin lo hi log
WaitsWithin lo hi (forgot_credential ∷ log) = WaitsWithin lo hi log
WaitsWithin lo hi (closed_by_us c ∷ log) = WaitsWithin lo hi log

module _ (config : RunConfig) (shown : ConnectError → Text)
    (ordered : config.backoff_min ≤ config.backoff_max) where
  pub record InRange (s : Loop) : Type 0 where
    pub above : config.backoff_min ≤ s.backoff
    pub below : s.backoff ≤ config.backoff_max
    pub waits : WaitsWithin (config.backoff_min * 800) (config.backoff_max * 1199) s.log

  bearer-InRange :
      (s : Loop) (r : Result CredentialsError Text)
      → InRange s
      → InRange (on_bearer config shown s r)
  unfolding on_bearer
  bearer-InRange s (ok b) v = ground arith
  bearer-InRange s (err e) v = ground arith

  dialled-InRange :
      (s : Loop) (r : Result ConnectError ℕ) → InRange s → InRange (on_dialled config shown s r)
  unfolding on_dialled
  dialled-InRange s (ok c) v = record { above = v.above; below = v.below; waits = v.waits }
  dialled-InRange s (err e) v = ground arith

  closed-InRange : (s : Loop) (up : ℕ) → InRange s → InRange (on_closed config shown s up)
  unfolding on_closed
  closed-InRange s up v = ground arith

  forgot-InRange :
      (s : Loop) (e : ConnectError) (r : Result CredentialsError Bool)
      → InRange s
      → InRange (on_forgot config shown s e r)
  unfolding on_forgot
  forgot-InRange s e (ok true) v = record { above = v.above; below = v.below; waits = v.waits }
  forgot-InRange s e (ok false) v = record { above = v.above; below = v.below; waits = v.waits }
  forgot-InRange s e (err x) v = ground arith

  slept-InRange : (s : Loop) (hash : ℕ) → InRange s → InRange (on_slept config shown s hash)
  unfolding on_slept
  slept-InRange s hash v = record {
    above = grind arith;
    below = omega arith;
    waits = (grind (arith, jitter_bounds), grind (arith, jitter_bounds), v.waits);
  }

  stop-InRange : (s : Loop) → InRange s → InRange (on_stop config shown s)
  unfolding on_stop
  stop-InRange s v = elim (Option-cases s.live) [
    | inl e ↦ rw e (record { above = v.above; below = v.below; waits = v.waits })
    | inr (c, e) ↦ rw e (record { above = v.above; below = v.below; waits = v.waits })
  ]

  InRange-keeps : Keeps config shown InRange
  InRange-keeps = record {
    bearer = λ s r _ v. bearer-InRange s r v;
    dial = λ s b r _ v. dialled-InRange s r v;
    close = λ s c up _ v. closed-InRange s up v;
    forget = λ s e r _ v. forgot-InRange s e r v;
    sleep = λ s hash _ v. slept-InRange s hash v;
    stop = stop-InRange;
  }

  -- Where the floor of the backoff is at most its ceiling, the backoff stays between the two,
  -- whatever happens, and so does every wait, up to jitter.
  pub run-InRange :
      (described : Option Text) (events : List Event)
      → InRange (run config shown (start config shown described) events)
  run-InRange described events =
      run_keeps config shown InRange InRange-keeps (start config shown described) events
        (unfold start in record { above = omega arith; below = ordered; waits = tt })
