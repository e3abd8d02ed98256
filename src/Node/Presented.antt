-- ===== src/Node/Presented.antt =====
-- A credential that the server refused is not presented again.
use zyris_docker.Prelude.{
  ℕ, ◌≡◌, ◌≢◌, refl, subst, Option, some, List, All, Bool, true, false, inl, inr, Result, ok, err,
}
use zyris_docker.Prelude.Text.{Text}
use zyris_docker.Runtime.Credentials.{CredentialsError}
use zyris_docker.Runtime.Credential.{Credential}
use zyris_docker.Runtime.Config.{RunConfig}
use zyris_docker.Runtime.Runner.{
  RunError, ConnectError, reenroll, refusal_of, asking, dialling, serving, forgetting, waiting,
  stopped, Loop, on_bearer, on_dialled, on_closed, on_forgot, on_slept,
}
use zyris_docker.Runtime.Store.{CredentialStore}
use zyris_docker.Enroll.{EnrollError, Turn, Grant, bearer, forget_refused}
use zyris_docker.Enroll.Stored.{StoreLaws}
use zyris_docker.Enroll.Origin.{StoreOrigins}
use zyris_docker.Enroll.Gone.{NotGranted, NotStored, IsGone, bearer-IsGone, forget-IsGone}
use zyris_docker.Enroll.Forgotten.{Forgotten, forget_refused-Forgotten}
use zyris_docker.Node.{Input, asks, dials, sibling, Node, start_node, node_step, node_run}
use zyris_docker.Node.Induction.{NodeKeeps, node_run_keeps}
use zyris_docker.Node.Held.{run-DialsHeld}
use zyris_docker.Node.Phases.{
  ask-dials, dial-phase, drop-phase, forget-phase, wake-phase, stop-phase, refusal-phase,
}

-- The enrollment server grants no credential with the secret, and no other process stores one.
abbrev pub NotReturned : (store : CredentialStore) → Text → Input store → Type 0
NotReturned store secret (asks first turns) = All (NotGranted secret) turns
NotReturned store secret (sibling stored) = NotStored store secret stored
NotReturned store secret _ = Unit

module _ (store : CredentialStore) (laws : StoreLaws store) (origins : StoreOrigins store)
    (config : RunConfig) (shown : ConnectError → Text) (enroll_shown : EnrollError → Text) where
  -- A node that has done with this credential, or is about to.
  data Spent (old : Credential) (n : Node store) : Type 0 where
    gone : n.loop.phase ≢ dialling old.secret → IsGone store old.secret n.grant → Spent old n
    refusing :
        (e : ConnectError) → n.loop.phase ≡ forgetting e → n.grant.held ≡ some old → Spent old n
    ended : (outcome : Result RunError (Unit {0})) → n.loop.phase ≡ stopped outcome → Spent old n

  module _ (old : Credential) where
    ask-Spent :
        (n : Node store) (first : Result EnrollError (Unit {0})) (turns : List Turn)
        (r : Result CredentialsError Text) (g : Grant store)
        → n.loop.phase ≡ asking
        → All (NotGranted old.secret) turns
        → bearer store enroll_shown first turns n.grant ≡ (some r, g)
        → Spent old n
        → Spent old (record { loop = on_bearer config shown n.loop r; grant = g })
    ask-Spent n first turns r g p grants e (gone phase clean) =
        let (other, after) =
          bearer-IsGone store old.secret laws origins enroll_shown first turns n.grant g r grants
            clean e in
        gone (λ x. other (ask-dials config shown old.secret n.loop r x)) after
    ask-Spent n first turns r g p grants e (refusing x q h) = cc
    ask-Spent n first turns r g p grants e (ended o q) = cc

    dial-Spent :
        (n : Node store) (b : Text) (r : Result ConnectError ℕ)
        → n.loop.phase ≡ dialling b
        → Spent old n
        → Spent old (record n { loop = on_dialled config shown n.loop r })
    dial-Spent n b r p (gone phase clean) = gone (dial-phase config shown old.secret n.loop r) clean
    dial-Spent n b r p (refusing x q h) = cc
    dial-Spent n b r p (ended o q) = cc

    answered-Spent :
        (s : Loop) (e : ConnectError) (answer : Result CredentialsError Bool × Grant store)
        → Forgotten store laws old answer
        → Spent old (record { loop = on_forgot config shown s e answer.0; grant = answer.1 })
    unfolding on_forgot
    answered-Spent s e (ok true, g) clean = gone (λ h. cc) clean
    answered-Spent s e (ok false, g) h = absurd h
    answered-Spent s e (err x, g) (m, e2) = rw (e2, on_forgot) (ended _ refl)

    forget-Spent :
        (n : Node store) (e : ConnectError) (r : Result CredentialsError Bool) (g : Grant store)
        → n.loop.phase ≡ forgetting e
        → forget_refused store n.grant ≡ (r, g)
        → Spent old n
        → Spent old (record { loop = on_forgot config shown n.loop e r; grant = g })
    forget-Spent n e r g p answer (gone phase clean) =
        gone (forget-phase config shown old.secret n.loop e r) (
          subst (λ (a : Result CredentialsError Bool × Grant store). IsGone store old.secret a.1)
            answer (forget-IsGone store old.secret laws origins n.grant clean))
    forget-Spent n e r g p answer (refusing x q h) =
        answered-Spent n.loop e (r, g)
          (subst (Forgotten store laws old) answer
            (forget_refused-Forgotten store laws old n.grant h))
    forget-Spent n e r g p answer (ended o q) = cc

    Spent-keeps :
        NodeKeeps store config shown enroll_shown (NotReturned store old.secret) (Spent old)
    Spent-keeps = record {
      keep_ask = ask-Spent;
      keep_dial = dial-Spent;
      keep_drop = dropped;
      keep_forget = forget-Spent;
      keep_wake = woken;
      keep_stop = λ n _. ended (ok tt) (stop-phase config shown old.secret n.loop);
      keep_sibling = replaced;
    }
      where
        dropped :
            (n : Node store) (c up : ℕ)
            → n.loop.phase ≡ serving c
            → Spent old n
            → Spent old (record n { loop = on_closed config shown n.loop up })
        dropped n c up p (gone phase clean) =
            gone (drop-phase config shown old.secret n.loop up) clean
        dropped n c up p (refusing x q h) = cc
        dropped n c up p (ended o q) = cc

        woken :
            (n : Node store) (hash : ℕ)
            → n.loop.phase ≡ waiting
            → Spent old n
            → Spent old (record n { loop = on_slept config shown n.loop hash })
        woken n hash p (gone phase clean) =
            gone (wake-phase config shown old.secret n.loop hash) clean
        woken n hash p (refusing x q h) = cc
        woken n hash p (ended o q) = cc

        replaced :
            (n : Node store) (stored : store.State)
            → NotStored store old.secret stored
            → Spent old n
            → Spent old (record n { grant = record n.grant { stored = stored } })
        replaced n stored other (gone phase clean) = gone phase (clean.0, other)
        replaced n stored other (refusing x q h) = refusing x q h
        replaced n stored other (ended o q) = ended o q

    -- The refusal of a dial either spends the one re-enrollment, or ends the loop.
    refused-Spent :
        (n : Node store) (b : Text) (error : ConnectError)
        → n.loop.phase ≡ dialling b
        → n.grant.held ≡ some old
        → refusal_of error ≡ reenroll
        → Spent old (node_step store config shown enroll_shown n (dials (err error)))
    unfolding node_step
    refused-Spent n b error p h refusal =
        elim (refusal-phase config shown b n.loop b error p refusal) [
          | inl q ↦ refusing error q h
          | inr (outcome, q) ↦ ended outcome q
        ]

    Spent-phase : (n : Node store) → Spent old n → n.loop.phase ≢ dialling old.secret
    Spent-phase n (gone phase clean) = phase
    Spent-phase n (refusing e p h) = λ x. cc
    Spent-phase n (ended o p) = λ x. cc

  module _ (described : Option Text) (stored : store.State) (before : List (Input store)) where
    abbrev reached : Node store
    reached =
        node_run store config shown enroll_shown
          (start_node store config shown enroll_shown described stored) before

    -- Wherever the server refuses the credential that a node dials with, in whatever run, the node
    -- never dials with that secret again, whatever happens after, unless the enrollment server
    -- grants it once more or another process puts it back into the store. The store keeps
    -- `StoreLaws` and makes no credential up.
    pub refused_never_dialled :
        (secret : Text) (error : ConnectError) (after : List (Input store))
        → reached.loop.phase ≡ dialling secret
        → refusal_of error ≡ reenroll
        → All (NotReturned store secret) after
        → (node_run store config shown enroll_shown
            (node_step store config shown enroll_shown reached (dials (err error)))
            after).loop.phase
          ≢ dialling secret
    refused_never_dialled secret error after p refusal allowed =
        let (old, holds, same) =
          run-DialsHeld store config shown enroll_shown described stored before secret p in
        subst
          (λ (b : Text).
            All (NotReturned store b) after
            → (node_run store config shown enroll_shown
                (node_step store config shown enroll_shown reached (dials (err error)))
                after).loop.phase
              ≢ dialling b)
          same
          (λ other. Spent-phase old _ (
            node_run_keeps store config shown enroll_shown (NotReturned store old.secret)
              (Spent old) (Spent-keeps old) _ after other
              (refused-Spent old reached secret error p holds refusal)))
          allowed
