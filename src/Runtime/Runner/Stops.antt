-- ===== src/Runtime/Runner/Stops.antt =====
-- The stop branch finds the live connection or nothing, and what leaves the loop running.
use zyris_docker.Prelude.{
  ℕ, Bool, ◌≡◌, refl, sym, subst, Option, none, some, List, ◌∷◌, arith, Result, ok, err,
}
use zyris_docker.Prelude.Text.{Text}
use zyris_docker.Runtime.Credentials.{CredentialsError}
use zyris_docker.Runtime.Config.{RunConfig}
use zyris_docker.Runtime.Runner.Induction.{Keeps, run_keeps}
use zyris_docker.Runtime.Runner.{
  ConnectError, Effect, closed_by_us, Phase, asking, dialling, serving, forgetting, waiting,
  stopped, panicked, Loop, Event, stop_signal, start, on_bearer, on_dialled, on_closed, on_forgot,
  on_slept, on_stop, dispatch, step, run,
}

-- The connection that a phase serves.
abbrev pub served : Phase → Option ℕ
served (serving c) = some c
served _ = none

abbrev pub IsRunning : Phase → Type 0
IsRunning (stopped outcome) = ⊥
IsRunning panicked = ⊥
IsRunning _ = Unit

-- The slot holds exactly the connection that is being served.
abbrev pub IsParked : Loop → Type 0
IsParked s = s.live ≡ served s.phase

abbrev pub farewell : Option ℕ → List Effect → List Effect
farewell none log = log
farewell (some c) log = closed_by_us c ∷ log

module _ (config : RunConfig) (shown : ConnectError → Text) where
  IsParked-keeps : Keeps config shown IsParked
  unfolding on_bearer on_dialled on_closed on_forgot on_slept on_stop
  IsParked-keeps = record {
    bearer = bearer;
    dial = dial;
    close = λ s c up e h. refl;
    forget = forget;
    sleep = λ s hash e h. ground (arith, e, h);
    stop = λ s h. ground (arith, h);
  }
    where
      bearer :
          (s : Loop) (r : Result CredentialsError Text)
          → s.phase ≡ asking
          → IsParked s
          → IsParked (on_bearer config shown s r)
      bearer s (ok b) e h = ground (arith, e, h)
      bearer s (err x) e h = ground (arith, e, h)

      dial :
          (s : Loop) (b : Text) (r : Result ConnectError ℕ)
          → s.phase ≡ dialling b
          → IsParked s
          → IsParked (on_dialled config shown s r)
      dial s b (ok c) e h = refl
      dial s b (err x) e h = ground (arith, e, h)

      forget :
          (s : Loop) (x : ConnectError) (r : Result CredentialsError Bool)
          → s.phase ≡ forgetting x
          → IsParked s
          → IsParked (on_forgot config shown s x r)
      forget s x (ok b) e h = ground (arith, e, h)
      forget s x (err y) e h = ground (arith, e, h)

  -- In every run, the slot that the stop branch takes from holds the connection that is being
  -- served, and nothing when none is.
  pub run-IsParked :
      (described : Option Text) (events : List Event)
      → IsParked (run config shown (start config shown described) events)
  run-IsParked described events =
      run_keeps config shown IsParked IsParked-keeps _ events (start-IsParked described)
    where
      start-IsParked : (d : Option Text) → IsParked (start config shown d)
      start-IsParked d = unfold start in ground arith

  stop_dispatch :
      (phase : Phase) (s : Loop)
      → IsRunning phase
      → dispatch config shown phase s stop_signal ≡ on_stop config shown s
  stop_dispatch asking s r = refl
  stop_dispatch (dialling b) s r = refl
  stop_dispatch (serving c) s r = refl
  stop_dispatch (forgetting e) s r = refl
  stop_dispatch waiting s r = refl
  stop_dispatch (stopped outcome) s r = absurd r
  stop_dispatch panicked s r = absurd r

  on_stop_lem :
      (s : Loop)
      → IsParked s
      → ((on_stop config shown s).phase ≡ stopped (ok tt))
        × ((on_stop config shown s).live ≡ none)
        × ((on_stop config shown s).log ≡ farewell (served s.phase) s.log)
  unfolding on_stop
  on_stop_lem s h = rw (← h) (ground arith)

  -- A stop signal ends the loop from whatever it waits in, with no error. If a connection is being
  -- served it is closed and the slot is emptied; if none is, nothing is sent.
  pub stop_closes_live :
      (described : Option Text) (events : List Event)
      → IsRunning (run config shown (start config shown described) events).phase
      → let s = run config shown (start config shown described) events in
        let t = step config shown s stop_signal in
        (t.phase ≡ stopped (ok tt)) × (t.live ≡ none) × (t.log ≡ farewell (served s.phase) s.log)
  stop_closes_live described events r =
      let s = run config shown (start config shown described) events in
      subst
        (λ (t : Loop).
          (t.phase ≡ stopped (ok tt)) × (t.live ≡ none) × (t.log ≡ farewell (served s.phase) s.log))
        (sym (stopping s r)) (on_stop_lem s (run-IsParked described events))
    where
      stopping :
          (s : Loop) → IsRunning s.phase → step config shown s stop_signal ≡ on_stop config shown s
      stopping s r = unfold step in stop_dispatch s.phase s r
