-- ===== src/Runtime/Runner.antt =====
-- The dial loop, src/runtime/runner.rs, as a machine that takes one step for each result that the
-- program awaits: a bearer, a dial, the end of a connection, an answer to `forget_refused`, the end
-- of a sleep, or a stop signal. Durations are in milliseconds and the waits, which are products
-- with a factor in thousandths, in microseconds.
pub mod Induction
pub mod Backoff
pub mod Failures
pub mod Reenroll
pub mod Stops
pub mod Exit
pub mod Report
mod Tests
use zyris_docker.Prelude.{
  ℕ, ◌+◌, ◌*◌, ◌%◌, min, Bool, true, false, Option, none, some, List, [], ◌∷◌, leb, if◌then◌else◌,
  Result, ok, err,
}
use zyris_docker.Prelude.Text.{Text}
use zyris_docker.Runtime.Credentials.{
  CredentialsError, needs_operator, fatal, unavailable, token_prefix,
}
use zyris_docker.Runtime.Config.{RunConfig}

-- `zyris::ConnectError`. A transport error is the text that it displays as.
pub data ConnectError : Type 0 where
  unauthorized revoked no_tls_provider : ConnectError
  version_mismatch : Text → Option Text → ConnectError
  unreachable : Text → ConnectError

pub data RunError : Type 0 where
  credentials : CredentialsError → RunError
  build refused : Text → RunError

-- `RunError::exit_code`
unfoldable pub exit_code : RunError → ℕ
exit_code (credentials (needs_operator message)) = 2
exit_code (build message) = 2
exit_code (credentials (fatal message)) = 1
exit_code (credentials (unavailable message)) = 1
exit_code (refused message) = 1

pub data Refusal : Type 0 where
  reenroll fatal_refusal backoff_refusal : Refusal

-- `Refusal::of`
unfoldable pub refusal_of : ConnectError → Refusal
refusal_of unauthorized = reenroll
refusal_of revoked = reenroll
refusal_of (version_mismatch ours theirs) = fatal_refusal
refusal_of no_tls_provider = fatal_refusal
refusal_of (unreachable error) = backoff_refusal

-- `jitter`: `hash` is what the fresh hasher answers, the factor 0.8 to 1.199.
unfoldable pub jitter : ℕ → ℕ → ℕ
jitter base hash = base * (800 + hash % 400)

-- What the loop does that others can see, the newest first in a log.
pub data Effect : Type 0 where
  -- A connection, which is when the `on_connect` hook is spawned on it.
  connected : ℕ → Effect
  -- The source has forgotten the refused credential.
  forgot_credential : Effect
  -- A sleep of `wait_then_widen`.
  waited : ℕ → Effect
  -- The closing frame of a graceful stop.
  closed_by_us : ℕ → Effect

pub data Phase : Type 0 where
  -- in `credentials.bearer().await`
  asking : Phase
  -- in `node.dial(url, bearer).await`
  dialling : Text → Phase
  -- in `conn.closed().await`
  serving : ℕ → Phase
  -- in `credentials.forget_refused().await`, over this refusal
  forgetting : ConnectError → Phase
  -- in the sleep of `wait_then_widen`
  waiting : Phase
  -- `try_run` has returned
  stopped : Result RunError (Unit {0}) → Phase
  panicked : Phase

pub record Loop : Type 0 where
  pub phase : Phase
  pub backoff : ℕ
  pub reenrolled_after_refusal : Bool
  -- the slot that the stop branch takes the connection from
  pub live : Option ℕ
  pub log : List Effect

pub data Event : Type 0 where
  got_bearer : Result CredentialsError Text → Event
  dialled : Result ConnectError ℕ → Event
  -- The connection dropped, after so many milliseconds.
  closed : ℕ → Event
  forgot : Result CredentialsError Bool → Event
  -- The sleep is over; its jitter came from this hash.
  slept : ℕ → Event
  stop_signal : Event

module _ (config : RunConfig) (shown : ConnectError → Text) where
  -- The head of `dial_loop`: its log line calls `describe`, which may panic.
  unfoldable pub start : Option Text → Loop
  start described = record {
    phase = elim described [ none ↦ panicked | some _ ↦ asking ];
    backoff = config.backoff_min;
    reenrolled_after_refusal = false;
    live = none;
    log = [];
  }

  -- The bearer arm. The log line before a dial shows the prefix, which may panic.
  unfoldable pub on_bearer : Loop → Result CredentialsError Text → Loop
  on_bearer s (ok bearer) = elim (token_prefix bearer) [
    | none ↦ record s { phase = panicked }
    | some _ ↦ record s { phase = dialling bearer }
  ]
  on_bearer s (err (unavailable message)) = record s { phase = waiting }
  on_bearer s (err (needs_operator message)) = record s {
    phase = stopped (err (credentials (needs_operator message)));
  }
  on_bearer s (err (fatal message)) = record s {
    phase = stopped (err (credentials (fatal message)));
  }

  unfoldable pub on_refusal : Loop → ConnectError → Refusal → Loop
  on_refusal s error reenroll =
      if s.reenrolled_after_refusal
      then record s { phase = stopped (err (refused (shown error))) }
      else record s { phase = forgetting error; reenrolled_after_refusal = true }
  on_refusal s error fatal_refusal = record s { phase = stopped (err (refused (shown error))) }
  on_refusal s error backoff_refusal = record s { phase = waiting }

  unfoldable pub on_dialled : Loop → Result ConnectError ℕ → Loop
  unfolding on_refusal refusal_of
  on_dialled s (ok conn) = record s {
    phase = serving conn;
    reenrolled_after_refusal = false;
    live = some conn;
    log = connected conn ∷ s.log;
  }
  on_dialled s (err error) = on_refusal s error (refusal_of error)

  unfoldable pub on_closed : Loop → ℕ → Loop
  on_closed s up = record s {
    phase = waiting;
    live = none;
    backoff = if leb config.stable_after up then config.backoff_min else s.backoff;
  }

  unfoldable pub on_forgot : Loop → ConnectError → Result CredentialsError Bool → Loop
  on_forgot s error (ok true) = record s { phase = asking; log = forgot_credential ∷ s.log }
  on_forgot s error (ok false) = record s { phase = stopped (err (refused (shown error))) }
  on_forgot s error (err (unavailable message)) = record s {
    phase = waiting;
    reenrolled_after_refusal = false;
  }
  on_forgot s error (err (needs_operator message)) = record s {
    phase = stopped (err (credentials (needs_operator message)));
  }
  on_forgot s error (err (fatal message)) = record s {
    phase = stopped (err (credentials (fatal message)));
  }

  -- The end of `wait_then_widen`.
  unfoldable pub on_slept : Loop → ℕ → Loop
  unfolding jitter
  on_slept s hash = record s {
    phase = asking;
    backoff = min (s.backoff * 2) config.backoff_max;
    log = waited (jitter s.backoff hash) ∷ s.log;
  }

  -- The stop branch of `try_run`.
  unfoldable pub on_stop : Loop → Loop
  on_stop s = elim s.live [
    | none ↦ record s { phase = stopped (ok tt) }
    | some conn ↦ record s { phase = stopped (ok tt); live = none; log = closed_by_us conn ∷ s.log }
  ]

  -- An event that the loop is not waiting for changes nothing.
  abbrev pub dispatch : Phase → Loop → Event → Loop
  dispatch (stopped outcome) s event = s
  dispatch panicked s event = s
  dispatch asking s (got_bearer r) = on_bearer s r
  dispatch asking s stop_signal = on_stop s
  dispatch (dialling bearer) s (dialled r) = on_dialled s r
  dispatch (dialling bearer) s stop_signal = on_stop s
  dispatch (serving conn) s (closed up) = on_closed s up
  dispatch (serving conn) s stop_signal = on_stop s
  dispatch (forgetting error) s (forgot r) = on_forgot s error r
  dispatch (forgetting error) s stop_signal = on_stop s
  dispatch waiting s (slept hash) = on_slept s hash
  dispatch waiting s stop_signal = on_stop s
  dispatch _ s _ = s

  unfoldable pub step : Loop → Event → Loop
  unfolding on_bearer on_dialled on_closed on_forgot on_slept on_stop
  step s event = dispatch s.phase s event

  unfoldable pub run : Loop → List Event → Loop
  unfolding step
  run s [] = s
  run s (event ∷ events) = run (step s event) events

-- `Runner::run`: the status that the process leaves with, once the loop has returned.
unfoldable pub status : Result RunError (Unit {0}) → ℕ
unfolding exit_code
status (ok _) = 0
status (err error) = exit_code error
