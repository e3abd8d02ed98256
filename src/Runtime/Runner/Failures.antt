-- ===== src/Runtime/Runner/Failures.antt =====
-- A run of failures that a retry may cure: the backoff doubles up to its ceiling, and a connection
-- that lasted takes it back to the floor.
use native.Mathlib.Nat.{pow-suc}
use zyris_docker.Prelude.{
  ℕ, zero, suc, ◌*◌, ◌^◌, ◌≤◌, min, ◌≡◌, refl, ◌∙◌, some, List, [], ◌∷◌, arith, length, leb,
  if◌then◌else◌, Bool-cases, inl, inr, ok, err,
}
use zyris_docker.Prelude.Text.{Text}
use zyris_docker.Runtime.Credentials.{unavailable, token_prefix}
use zyris_docker.Runtime.Config.{RunConfig}
use zyris_docker.Runtime.Runner.{
  ConnectError, unreachable, waited, asking, serving, Loop, Event, got_bearer, dialled, closed,
  slept, jitter, on_bearer, on_dialled, on_closed, on_slept, step, run,
}

-- One turn of the loop that fails, with the hash of the sleep that follows it.
pub data Failure : Type 0 where
  source_down : Text → ℕ → Failure
  server_down : (bearer prefix error : Text) → token_prefix bearer ≡ some prefix → ℕ → Failure

abbrev pub events_of : List Failure → List Event
events_of [] = []
events_of (source_down message hash ∷ failures) =
    got_bearer (err (unavailable message)) ∷ slept hash ∷ events_of failures
events_of (server_down bearer prefix error shows hash ∷ failures) =
    got_bearer (ok bearer) ∷ dialled (err (unreachable error)) ∷ slept hash ∷ events_of failures

pow-pos : (n : ℕ) → 1 ≤ 2 ^ n
pow-pos zero = omega arith
pow-pos (suc n) = omega (arith, pow-suc 2 n, pow-pos n)

doubling_of : (b p top : ℕ) → 1 ≤ p → min (min (b * 2) top * p) top ≡ min (b * (p * 2)) top
doubling_of b p top h = elim (Bool-cases (leb (b * 2) top)) [
  | inl e ↦ let fits : min (b * 2) top ≡ b * 2 = ground (arith, e) in rw fits (grind arith)
  | inr e ↦ let caps : min (b * 2) top ≡ top = ground (arith, e) in rw caps (grind arith)
]

doubling : (b n top : ℕ) → min (min (b * 2) top * 2 ^ n) top ≡ min (b * 2 ^ suc n) top
doubling b n top = rw (pow-suc 2 n) (doubling_of b (2 ^ n) top (pow-pos n))

module _ (config : RunConfig) (shown : ConnectError → Text) where
  failure_step :
      (s : Loop) (f : Failure) (failures : List Failure)
      → s.phase ≡ asking
      → (t : Loop) × (t.phase ≡ asking)
        × (t.backoff ≡ min (s.backoff * 2) config.backoff_max)
        × (run config shown s (events_of (f ∷ failures)) ≡ run config shown t (events_of failures))
  unfolding run step on_bearer on_dialled on_slept
  failure_step s (source_down message hash) failures e =
      (on_slept config shown s hash, refl, refl, ground (arith, e))
  failure_step s (server_down bearer prefix error shows hash) failures e =
      (on_slept config shown s hash, refl, refl, ground (arith, e, shows))

  -- From a loop that is about to ask for a bearer, with a backoff of at most its ceiling: after a
  -- run of failures the backoff has doubled once for each, up to its ceiling, and the loop is
  -- about to ask for a bearer again.
  pub backoff_after_failures :
      (s : Loop) (failures : List Failure)
      → s.phase ≡ asking
      → s.backoff ≤ config.backoff_max
      → let t = run config shown s (events_of failures) in
        (t.phase ≡ asking) × (t.backoff ≡ min (s.backoff * 2 ^ length failures) config.backoff_max)
  backoff_after_failures s [] e fits = unfold run in (e, omega arith)
  backoff_after_failures s (f ∷ failures) e fits =
      let (t, asks, doubled, same) = failure_step s f failures e in
      let (asks', b) = backoff_after_failures t failures asks (omega (arith, doubled)) in
      rw same (asks', b ∙ rw doubled (doubling s.backoff (length failures) config.backoff_max))

  -- A connection that lasted restarts the backoff: the wait after it is from the floor, and the next
  -- one from twice the floor; after a shorter one the backoff goes on from where it was.
  pub backoff_after_connection :
      (s : Loop) (conn up hash : ℕ)
      → s.phase ≡ serving conn
      → let t = run config shown s (closed up ∷ slept hash ∷ []) in
        let base = if leb config.stable_after up then config.backoff_min else s.backoff in
        (t.phase ≡ asking)
        × (t.log ≡ waited (jitter base hash) ∷ s.log)
        × (t.backoff ≡ min (base * 2) config.backoff_max)
  unfolding run step on_closed on_slept
  backoff_after_connection s conn up hash e = ground (arith, e)
