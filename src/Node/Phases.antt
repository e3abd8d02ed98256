-- ===== src/Node/Phases.antt =====
-- Only a bearer leads to a dial, and to a dial with that bearer.
use zyris_docker.Prelude.{
  ℕ, ◌≡◌, ◌≢◌, ◌⊎◌, arith, inl, inr, refl, Bool, true, false, Bool-cases, Option-cases, Result, ok,
  err,
}
use zyris_docker.Prelude.Text.{Text}
use zyris_docker.Runtime.Credentials.{
  CredentialsError, needs_operator, fatal, unavailable, token_prefix,
}
use zyris_docker.Runtime.Config.{RunConfig}
use zyris_docker.Runtime.Runner.{
  RunError, refused, ConnectError, Refusal, reenroll, fatal_refusal, backoff_refusal, refusal_of,
  dialling, forgetting, stopped, Loop, dialled, step, on_bearer, on_refusal, on_dialled, on_closed,
  on_forgot, on_slept, on_stop,
}

module _ (config : RunConfig) (shown : ConnectError → Text) (secret : Text) where
  pub ask-dials :
      (s : Loop) (r : Result CredentialsError Text)
      → (on_bearer config shown s r).phase ≡ dialling secret
      → r ≡ ok secret
  unfolding on_bearer
  ask-dials s (ok b) = elim (Option-cases (token_prefix b)) [
    | inl e ↦ rw (e, on_bearer) (λ h. cc)
    | inr (p, e) ↦ rw (e, on_bearer) (λ h. cc)
  ]
  ask-dials s (err (unavailable m)) = λ h. cc
  ask-dials s (err (needs_operator m)) = λ h. cc
  ask-dials s (err (fatal m)) = λ h. cc

  pub dial-phase :
      (s : Loop) (r : Result ConnectError ℕ) → (on_dialled config shown s r).phase ≢ dialling secret
  unfolding on_dialled on_refusal
  dial-phase s (ok c) = λ h. cc
  dial-phase s (err e) = refused_phase (refusal_of e)
    where
      refused_phase : (r : Refusal) → (on_refusal config shown s e r).phase ≢ dialling secret
      refused_phase reenroll = elim (Bool-cases s.reenrolled_after_refusal) [
        | inl f ↦ rw f (λ h. cc)
        | inr f ↦ rw f (λ h. cc)
      ]
      refused_phase fatal_refusal = λ h. cc
      refused_phase backoff_refusal = λ h. cc

  pub forget-phase :
      (s : Loop) (e : ConnectError) (r : Result CredentialsError Bool)
      → (on_forgot config shown s e r).phase ≢ dialling secret
  unfolding on_forgot
  forget-phase s e (ok true) = λ h. cc
  forget-phase s e (ok false) = λ h. cc
  forget-phase s e (err (unavailable m)) = λ h. cc
  forget-phase s e (err (needs_operator m)) = λ h. cc
  forget-phase s e (err (fatal m)) = λ h. cc

  pub stop-phase : (s : Loop) → (on_stop config shown s).phase ≡ stopped (ok tt)
  unfolding on_stop
  stop-phase s = elim (Option-cases s.live) [
    | inl e ↦ rw (e, on_stop) refl
    | inr (c, e) ↦ rw (e, on_stop) refl
  ]

  pub drop-phase : (s : Loop) (up : ℕ) → (on_closed config shown s up).phase ≢ dialling secret
  unfolding on_closed
  drop-phase s up = λ h. cc

  pub wake-phase : (s : Loop) (hash : ℕ) → (on_slept config shown s hash).phase ≢ dialling secret
  unfolding on_slept
  wake-phase s hash = λ h. cc

  -- A refusal that might be mended by another credential.
  pub refusal-phase :
      (s : Loop) (b : Text) (e : ConnectError)
      → s.phase ≡ dialling b
      → refusal_of e ≡ reenroll
      → ((step config shown s (dialled (err e))).phase ≡ forgetting e)
        ⊎ ((outcome : Result RunError (Unit {0})) × ((step config shown s (dialled (err e))).phase
              ≡ stopped outcome))
  unfolding step on_dialled on_refusal
  refusal-phase s b e dials refusal = elim (Bool-cases s.reenrolled_after_refusal) [
    | inl f ↦ inr (err (refused (shown e)), ground (arith, dials, refusal, f))
    | inr f ↦ inl (ground (arith, dials, refusal, f))
  ]
