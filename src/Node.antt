-- ===== src/Node.antt =====
-- The dial loop of src/runtime/runner.rs over the device grant of src/enroll.rs: a node that enrolls
-- itself. What the loop awaits of its credentials is what the grant answers from its own state; what
-- the servers answer, and what other processes do to the store, are inputs.
pub mod Induction
pub mod Phases
pub mod Held
pub mod Presented
pub mod OnDisk
pub mod Persisted
pub mod Reenrolls
mod Tests
use zyris_docker.Prelude.{ℕ, Option, none, some, List, [], ◌∷◌, Bool, Result}
use zyris_docker.Prelude.Text.{Text}
use zyris_docker.Runtime.Credentials.{CredentialsError}
use zyris_docker.Runtime.Config.{RunConfig}
use zyris_docker.Runtime.Runner.{
  ConnectError, Phase, asking, dialling, serving, forgetting, waiting, Loop, got_bearer, dialled,
  closed, forgot, slept, stop_signal, start, step,
}
use zyris_docker.Runtime.Store.{CredentialStore}
use zyris_docker.Enroll.{EnrollError, Turn, Grant, bearer, forget_refused}

-- What a node waits for.
pub data Input (store : CredentialStore) : Type 0 where
  -- `bearer` is called, and these are the enrollment server's answers if it comes to that.
  asks : Result EnrollError (Unit {0}) → List Turn → Input store
  -- The end of a dial.
  dials : Result ConnectError ℕ → Input store
  -- The connection drops, after so many milliseconds.
  drops : ℕ → Input store
  -- `forget_refused` is called.
  forgets : Input store
  -- A sleep ends, with this hash for its jitter.
  wakes : ℕ → Input store
  stops : Input store
  -- Another process, as a sibling pod, leaves the store in this state.
  sibling : store.State → Input store

module _ (store : CredentialStore) where
  pub record Node : Type 0 where
    pub loop : Loop
    pub grant : Grant store

  module _ (config : RunConfig) (shown : ConnectError → Text)
      (enroll_shown : EnrollError → Text) where
    -- A node at the head of its loop, over a store in this state.
    unfoldable pub start_node : Option Text → store.State → Node
    start_node described stored = record {
      loop = start config shown described;
      grant = record { stored = stored; held = none; notices = [] };
    }

    -- Answers that do not end the call are no input: the node waits on as it is.
    abbrev pub bearer_answered : Node → Option (Result CredentialsError Text) × Grant store → Node
    bearer_answered n (none, g) = n
    bearer_answered n (some r, g) = record {
      loop = step config shown n.loop (got_bearer r);
      grant = g;
    }

    abbrev pub forgot_answered : Node → Result CredentialsError Bool × Grant store → Node
    forgot_answered n (r, g) = record { loop = step config shown n.loop (forgot r); grant = g }

    -- An input that the loop is not waiting for changes nothing.
    abbrev pub on_input : Input store → Phase → Node → Node
    on_input (dials r) phase n = record n { loop = step config shown n.loop (dialled r) }
    on_input (drops up) phase n = record n { loop = step config shown n.loop (closed up) }
    on_input (wakes hash) phase n = record n { loop = step config shown n.loop (slept hash) }
    on_input stops phase n = record n { loop = step config shown n.loop stop_signal }
    on_input (sibling stored) phase n = record n { grant = record n.grant { stored = stored } }
    on_input (asks first turns) asking n =
        bearer_answered n (bearer store enroll_shown first turns n.grant)
    on_input forgets (forgetting e) n = forgot_answered n (forget_refused store n.grant)
    on_input input phase n = n

    unfoldable pub node_step : Node → Input store → Node
    node_step n input = on_input input n.loop.phase n

    unfoldable pub node_run : Node → List (Input store) → Node
    unfolding node_step
    node_run n [] = n
    node_run n (input ∷ inputs) = node_run (node_step n input) inputs
