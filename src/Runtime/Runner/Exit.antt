-- ===== src/Runtime/Runner/Exit.antt =====
-- With what the loop can end, and the status that a supervisor reads.
use zyris_docker.Prelude.{◌≡◌, refl, Option, none, some, List, Result, ok, err, inl, inr, ◌⊎◌, Any}
use zyris_docker.Prelude.Text.{Text}
use zyris_docker.Runtime.Credentials.{needs_operator, fatal, unavailable, token_prefix}
use zyris_docker.Runtime.Config.{RunConfig}
use zyris_docker.Runtime.Runner.{
  ConnectError, RunError, credentials, build, refused, Phase, asking, dialling, serving, forgetting,
  waiting, stopped, panicked, Event, got_bearer, stop_signal, start, status,
}

-- What the loop may end with, and the status of each.
abbrev IsStatus : Result RunError (Unit {0}) → Type 0
IsStatus (ok done) = status (ok done) ≡ 0
IsStatus (err (credentials (needs_operator m))) = status (err (credentials (needs_operator m))) ≡ 2
IsStatus (err (credentials (fatal m))) = status (err (credentials (fatal m))) ≡ 1
IsStatus (err (refused m)) = status (err (refused m)) ≡ 1
IsStatus (err (credentials (unavailable m))) = ⊥
IsStatus (err (build m)) = ⊥

abbrev Settled : Phase → Type 0
Settled (stopped outcome) = IsStatus outcome
Settled phase = Unit

-- The log line before a dial panics on the prefix of this bearer.
abbrev pub PanicsOn : Event → Type 0
PanicsOn event = (bearer : Text) × (event ≡ got_bearer (ok bearer)) × (token_prefix bearer ≡ none)

-- How a run may have ended. `described` is `none` where the log line at the head of the loop panics.
abbrev pub IsOutcome : Option Text → List Event → Phase → Type 0
IsOutcome described events (stopped (ok done)) =
    (status (ok done) ≡ 0) × Any (λ e. e ≡ stop_signal) events
IsOutcome described events (stopped (err error)) = IsStatus (err error)
IsOutcome described events panicked = (described ≡ none) ⊎ Any PanicsOn events
IsOutcome described events phase = Unit

module _ (config : RunConfig) (shown : ConnectError → Text) where
  -- What a step may end the loop with: success only on a stop signal, and a panic only on a bearer
  -- whose prefix panics.
  abbrev EndsBy : Event → Phase → Phase → Type 0
  EndsBy event before (stopped (ok done)) = (before ≡ stopped (ok tt)) ⊎ (event ≡ stop_signal)
  EndsBy event before panicked = (before ≡ panicked) ⊎ PanicsOn event
  EndsBy event before phase = Unit

  -- The same over a run.
  abbrev EndsIn : List Event → Phase → Phase → Type 0
  EndsIn events before (stopped (ok done)) =
      (before ≡ stopped (ok tt)) ⊎ Any (λ e. e ≡ stop_signal) events
  EndsIn events before panicked = (before ≡ panicked) ⊎ Any PanicsOn events
  EndsIn events before phase = Unit

  outcome :
      (described : Option Text) (events : List Event) (phase : Phase)
      → Settled phase
      → EndsIn events (start config shown described).phase phase
      → IsOutcome described events phase
  unfolding start
  outcome none events (stopped (ok done)) h (inl e) = cc
  outcome (some d) events (stopped (ok done)) h (inl e) = cc
  outcome described events (stopped (ok done)) h (inr e) = (h, e)
  outcome described events (stopped (err e)) h k = h
  outcome none events panicked h (inl e) = inl refl
  outcome (some d) events panicked h (inl e) = cc
  outcome described events panicked h (inr e) = inr e
  outcome described events asking h k = tt
  outcome described events (dialling b) h k = tt
  outcome described events (serving c) h k = tt
  outcome described events (forgetting e) h k = tt
  outcome described events waiting h k = tt
