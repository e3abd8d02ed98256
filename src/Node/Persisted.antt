-- ===== src/Node/Persisted.antt =====
-- No credential reaches the server before it is in the store.
use zyris_docker.Prelude.{◌≡◌, subst, Option, some, List, All, Bool, Result, ok}
use zyris_docker.Prelude.Text.{Text}
use zyris_docker.Runtime.Credentials.{CredentialsError}
use zyris_docker.Runtime.Credential.{Credential}
use zyris_docker.Runtime.Config.{RunConfig}
use zyris_docker.Runtime.Runner.{ConnectError, dialling}
use zyris_docker.Runtime.Store.{CredentialStore, credential_version}
use zyris_docker.Enroll.{EnrollError, Grant}
use zyris_docker.Enroll.Stored.{StoreLaws}
use zyris_docker.Enroll.Holding.{HeldIsStored, bearer-HeldIsStored, forget-HeldIsStored}
use zyris_docker.Node.{Input, sibling, Node, start_node, node_run}
use zyris_docker.Node.Induction.{NodeKeeps, node_run_keeps}
use zyris_docker.Node.Held.{run-DialsHeld}

-- No other process writes to the store.
abbrev pub Alone : (store : CredentialStore) → Input store → Type 0
Alone store (sibling stored) = ⊥
Alone store _ = Unit

module _ (store : CredentialStore) (laws : StoreLaws store) (config : RunConfig)
    (shown : ConnectError → Text) (enroll_shown : EnrollError → Text) where
  abbrev GrantIsStored : Node store → Type 0
  GrantIsStored n = HeldIsStored store laws n.grant

  GrantIsStored-keeps : NodeKeeps store config shown enroll_shown (Alone store) GrantIsStored
  GrantIsStored-keeps = record {
    keep_ask = λ n first turns r g _ _ e h.
        bearer-HeldIsStored store laws enroll_shown first turns n.grant g (some r) h e;
    keep_dial = λ n b r _ h. h;
    keep_drop = λ n c up _ h. h;
    keep_forget = λ n e r g _ answer _.
        subst (λ (a : Result CredentialsError Bool × Grant store). HeldIsStored store laws a.1)
          answer (forget-HeldIsStored store laws n.grant);
    keep_wake = λ n hash _ h. h;
    keep_stop = λ n h. h;
    keep_sibling = λ n s never h. absurd never;
  }

  -- Wherever a run of a node has come, as long as no other process writes to its store: a secret
  -- that the node dials with is that of a credential which the store reads back, if it has the version
  -- that this build reads. So a process killed at any moment never loses a credential that the server
  -- has seen.
  pub dialled_is_stored :
      (described : Option Text) (stored : store.State) (inputs : List (Input store)) (secret : Text)
      → All (Alone store) inputs
      → let n =
          node_run store config shown enroll_shown
            (start_node store config shown enroll_shown described stored)
            inputs in
        n.loop.phase ≡ dialling secret
        → (c : Credential) × (c.secret ≡ secret)
          × (c.version ≡ credential_version → (store.load n.grant.stored).0 ≡ ok (some c))
  unfolding start_node
  dialled_is_stored described stored inputs secret alone p =
      let (c, holds, same) =
        run-DialsHeld store config shown enroll_shown described stored inputs secret p in
      (
        c,
        same,
        node_run_keeps store config shown enroll_shown (Alone store) GrantIsStored
            GrantIsStored-keeps _ inputs alone (λ d e v. cc) c holds,
      )
