-- ===== src/Node/Held.antt =====
-- What a node dials with is what its grant holds.
use zyris_docker.Prelude.{
  ◌≡◌, inl, inr, refl, ap, ◌∙◌, subst, Option, none, some, List, [], ◌∷◌, All, Option-cases, Result,
  ok, err,
}
use zyris_docker.Prelude.Text.{Text}
use zyris_docker.Runtime.Credentials.{CredentialsError}
use zyris_docker.Runtime.Credential.{Credential}
use zyris_docker.Runtime.Config.{RunConfig}
use zyris_docker.Runtime.Runner.{ConnectError, dialling, start}
use zyris_docker.Runtime.Store.{CredentialStore}
use zyris_docker.Enroll.{EnrollError, Turn, Grant, holding, credential, secret_of, bearer}
use zyris_docker.Node.{Input, Node, start_node, node_run}
use zyris_docker.Node.Induction.{NodeKeeps, node_run_keeps}
use zyris_docker.Node.Phases.{
  ask-dials, dial-phase, drop-phase, forget-phase, wake-phase, stop-phase,
}

module _ (store : CredentialStore) (config : RunConfig) (shown : ConnectError → Text)
    (enroll_shown : EnrollError → Text) where
  -- The grant holds the credential with this secret.
  abbrev pub Holds : Text → Grant store → Type 0
  Holds secret g = (c : Credential) × (g.held ≡ some c) × (c.secret ≡ secret)

  abbrev pub DialsHeld : Node store → Type 0
  DialsHeld n = (b : Text) → n.loop.phase ≡ dialling b → Holds b n.grant

  abbrev Answered : Option (Result CredentialsError Credential) × Grant store → Type 0
  Answered (some (ok c), g) = g.held ≡ some c
  Answered (some (err e), g) = Unit
  Answered (none, g) = Unit

  abbrev AnsweredText : Option (Result CredentialsError Text) × Grant store → Type 0
  AnsweredText (some (ok b), g) = Holds b g
  AnsweredText (some (err e), g) = Unit
  AnsweredText (none, g) = Unit

  holding-Answered :
      (reply : Option (Result CredentialsError Credential) × Grant store)
      → Answered (holding store enroll_shown reply)
  holding-Answered (some (ok c), g) = refl
  holding-Answered (some (err e), g) = tt
  holding-Answered (none, g) = tt

  credential-Answered :
      (first : Result EnrollError (Unit {0})) (turns : List Turn) (g : Grant store)
      → Answered (credential store enroll_shown first turns g)
  unfolding credential
  credential-Answered first turns g = elim (Option-cases g.held) [
    | inl e ↦ rw (e, credential) (holding-Answered _)
    | inr (c, e) ↦ rw (e, credential) e
  ]

  secret-Answered :
      (reply : Option (Result CredentialsError Credential) × Grant store)
      → Answered reply
      → AnsweredText (secret_of store enroll_shown reply)
  secret-Answered (some (ok c), g) h = (c, h, refl)
  secret-Answered (some (err e), g) h = tt
  secret-Answered (none, g) h = tt

  bearer-Holds :
      (first : Result EnrollError (Unit {0})) (turns : List Turn) (g after : Grant store) (b : Text)
      → bearer store enroll_shown first turns g ≡ (some (ok b), after)
      → Holds b after
  unfolding bearer
  bearer-Holds first turns g after b e =
      subst AnsweredText e (secret-Answered _ (credential-Answered first turns g))

  DialsHeld-keeps : NodeKeeps store config shown enroll_shown (λ input. Unit) DialsHeld
  DialsHeld-keeps = record {
    keep_ask = λ n first turns r g _ _ e _. λ b p.
        bearer-Holds first turns n.grant g b
          (e ∙ ap (λ y. (some y, g)) (ask-dials config shown b n.loop r p));
    keep_dial = λ n b r _ _. λ b' p. absurd (dial-phase config shown b' n.loop r p);
    keep_drop = λ n c up _ _. λ b p. absurd (drop-phase config shown b n.loop up p);
    keep_forget = λ n e r g _ _ _. λ b p. absurd (forget-phase config shown b n.loop e r p);
    keep_wake = λ n hash _ _. λ b p. absurd (wake-phase config shown b n.loop hash p);
    keep_stop = λ n _. λ b p. cc (stop-phase config shown b n.loop, p);
    keep_sibling = λ n s _ h. h;
  }

  All-allowed : (inputs : List (Input store)) → All (λ (input : Input store). Unit {0}) inputs
  All-allowed [] = tt
  All-allowed (input ∷ inputs) = (tt, All-allowed inputs)

  pub run-DialsHeld :
      (described : Option Text) (stored : store.State) (inputs : List (Input store))
      → DialsHeld (
          node_run store config shown enroll_shown
            (start_node store config shown enroll_shown described stored)
            inputs)
  unfolding start_node start
  run-DialsHeld described stored inputs =
      node_run_keeps store config shown enroll_shown (λ input. Unit) DialsHeld DialsHeld-keeps _
        inputs (All-allowed inputs) (start_held described)
    where
      start_held :
          (d : Option Text) → DialsHeld (start_node store config shown enroll_shown d stored)
      start_held none = λ b p. cc
      start_held (some d) = λ b p. cc
