-- ===== src/Runtime/Runner/Induction.antt =====
-- What every handler of the loop keeps, in the phase that calls it, every run keeps.
use zyris_docker.Prelude.{ℕ, Bool, ◌≡◌, refl, List, [], ◌∷◌, Result}
use zyris_docker.Prelude.Text.{Text}
use zyris_docker.Runtime.Credentials.{CredentialsError}
use zyris_docker.Runtime.Config.{RunConfig}
use zyris_docker.Runtime.Runner.{
  ConnectError, Phase, asking, dialling, serving, forgetting, waiting, Loop, Event, got_bearer,
  dialled, closed, forgot, slept, stop_signal, on_bearer, on_dialled, on_closed, on_forgot,
  on_slept, on_stop, dispatch, step, run,
}

module _ {ℓ} (config : RunConfig) (shown : ConnectError → Text) (P : Loop → Type ℓ) where
  -- One rule for each handler. `running` stands for a phase that a stop signal ends.
  pub record Keeps : Type ℓ where
    pub bearer :
        (s : Loop) (r : Result CredentialsError Text)
        → s.phase ≡ asking
        → P s
        → P (on_bearer config shown s r)
    pub dial :
        (s : Loop) (b : Text) (r : Result ConnectError ℕ)
        → s.phase ≡ dialling b
        → P s
        → P (on_dialled config shown s r)
    pub close : (s : Loop) (c up : ℕ) → s.phase ≡ serving c → P s → P (on_closed config shown s up)
    pub forget :
        (s : Loop) (e : ConnectError) (r : Result CredentialsError Bool)
        → s.phase ≡ forgetting e
        → P s
        → P (on_forgot config shown s e r)
    pub sleep : (s : Loop) (hash : ℕ) → s.phase ≡ waiting → P s → P (on_slept config shown s hash)
    pub stop : (s : Loop) → P s → P (on_stop config shown s)

  module _ (keeps : Keeps) where
    pub dispatch_keeps :
        (phase : Phase) (s : Loop) (event : Event)
        → s.phase ≡ phase
        → P s
        → P (dispatch config shown phase s event)
    dispatch_keeps asking s (got_bearer r) e h = keeps.bearer s r e h
    dispatch_keeps asking s stop_signal e h = keeps.stop s h
    dispatch_keeps (dialling b) s (dialled r) e h = keeps.dial s b r e h
    dispatch_keeps (dialling b) s stop_signal e h = keeps.stop s h
    dispatch_keeps (serving c) s (closed up) e h = keeps.close s c up e h
    dispatch_keeps (serving c) s stop_signal e h = keeps.stop s h
    dispatch_keeps (forgetting x) s (forgot r) e h = keeps.forget s x r e h
    dispatch_keeps (forgetting x) s stop_signal e h = keeps.stop s h
    dispatch_keeps waiting s (slept hash) e h = keeps.sleep s hash e h
    dispatch_keeps waiting s stop_signal e h = keeps.stop s h
    dispatch_keeps _ s _ e h = h

    pub step_keeps : (s : Loop) (event : Event) → P s → P (step config shown s event)
    unfolding step
    step_keeps s event h = dispatch_keeps s.phase s event refl h

    pub run_keeps : (s : Loop) (events : List Event) → P s → P (run config shown s events)
    unfolding run
    run_keeps s [] h = h
    run_keeps s (event ∷ events) h =
        run_keeps (step config shown s event) events (step_keeps s event h)
