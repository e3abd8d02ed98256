-- ===== src/Node/Reenrolls.antt =====
-- A node whose credential was revoked comes back by itself, once somebody approves it.
use zyris_docker.Prelude.{
  ℕ, ◌≡◌, refl, sym, ap, ◌∙◌, subst, none, some, List, [], ◌∷◌, true, false, ok, err, arith,
}
use zyris_docker.Prelude.Text.{Text, text_eq_refl}
use zyris_docker.Runtime.Credentials.{token_prefix}
use zyris_docker.Runtime.Credential.{Credential}
use zyris_docker.Runtime.Config.{RunConfig}
use zyris_docker.Runtime.Runner.{
  ConnectError, reenroll, refusal_of, asking, forgetting, dialling, serving, connected,
  forgot_credential, step, on_dialled, on_refusal, on_forgot, on_bearer,
}
use zyris_docker.Runtime.Store.{CredentialStore, credential_version}
use zyris_docker.Enroll.{
  EnrollError, granted, Turn, Grant, bearer, credential, read_stored, clear_stored, enroll,
  enroll_loop, on_granted, forget_refused, replaced, authorized_notice, show_code,
}
use zyris_docker.Enroll.Stored.{StoreLaws}
use zyris_docker.Node.{Input, asks, dials, forgets, Node, node_step, node_run}

-- Removals and saves succeed.
pub record Succeeds (store : CredentialStore) : Type 0 where
  pub clears : (s : store.State) → (store.clear s).0 ≡ ok tt
  pub saves : (c : Credential) (s : store.State) → (store.save c s).0 ≡ ok tt

module _ (store : CredentialStore) (laws : StoreLaws store) (works : Succeeds store)
    (config : RunConfig) (shown : ConnectError → Text) (enroll_shown : EnrollError → Text) where
  -- The grant once its credential is forgotten, and once a new one is granted.
  abbrev emptied : Grant store → Grant store
  emptied g = record g { stored = (store.clear (store.load g.stored).1).1; held = none }

  abbrev renewed : Credential → Grant store → Grant store
  renewed new g = record {
    stored = (store.save new (store.load g.stored).1).1;
    held = some new;
    notices = authorized_notice ∷ show_code ∷ g.notices;
  }

  forgets-old :
      (old : Credential) (g : Grant store)
      → g.held ≡ some old
      → (store.load g.stored).0 ≡ ok (some old)
      → forget_refused store g ≡ (ok true, emptied g)
  unfolding forget_refused read_stored replaced clear_stored
  forgets-old old g held loads =
      ground (arith, held, loads, text_eq_refl old.secret, works.clears (store.load g.stored).1)

  enrolls-new :
      (new : Credential) (turn : Turn) (g : Grant store)
      → g.held ≡ none
      → (store.load g.stored).0 ≡ ok none
      → turn.polled ≡ ok (granted new)
      → bearer store enroll_shown (ok tt) (turn ∷ []) g ≡ (some (ok new.secret), renewed new g)
  unfolding bearer credential read_stored enroll enroll_loop on_granted
  enrolls-new new turn g held loads polled =
      ground (arith, held, loads, polled, works.saves new (store.load g.stored).1)

  refusal_step :
      (n : Node store) (b : Text) (error : ConnectError)
      → n.loop.phase ≡ dialling b
      → n.loop.reenrolled_after_refusal ≡ false
      → refusal_of error ≡ reenroll
      → node_step store config shown enroll_shown n (dials (err error)) ≡ record n {
        loop = record n.loop { phase = forgetting error; reenrolled_after_refusal = true };
      }
  unfolding node_step step on_dialled on_refusal
  refusal_step n b error p flag refusal = ground (arith, p, flag, refusal)

  forget_step :
      (n : Node store) (error : ConnectError) (g : Grant store)
      → n.loop.phase ≡ forgetting error
      → forget_refused store n.grant ≡ (ok true, g)
      → node_step store config shown enroll_shown n forgets ≡ record {
        loop = record n.loop { phase = asking; log = forgot_credential ∷ n.loop.log };
        grant = g;
      }
  unfolding node_step step on_forgot
  forget_step n error g p answer = ground (arith, p, answer)

  ask_step :
      (n : Node store) (turns : List Turn) (b p : Text) (g : Grant store)
      → n.loop.phase ≡ asking
      → bearer store enroll_shown (ok tt) turns n.grant ≡ (some (ok b), g)
      → token_prefix b ≡ some p
      → node_step store config shown enroll_shown n (asks (ok tt) turns)
        ≡ record { loop = record n.loop { phase = dialling b }; grant = g }
  unfolding node_step step on_bearer
  ask_step n turns b p g e answer shows = ground (arith, e, answer, shows)

  connect_step :
      (n : Node store) (b : Text) (conn : ℕ)
      → n.loop.phase ≡ dialling b
      → node_step store config shown enroll_shown n (dials (ok conn)) ≡ record n {
        loop = record n.loop {
          phase = serving conn;
          reenrolled_after_refusal = false;
          live = some conn;
          log = connected conn ∷ n.loop.log;
        };
      }
  unfolding node_step step on_dialled
  connect_step n b conn e = ground (arith, e)

  step_run :
      (n m : Node store) (input : Input store) (inputs : List (Input store)) (last : Node store)
      → node_step store config shown enroll_shown n input ≡ m
      → node_run store config shown enroll_shown m inputs ≡ last
      → node_run store config shown enroll_shown n (input ∷ inputs) ≡ last
  unfolding node_run
  step_run n m input inputs last e rest =
      ap (λ (x : Node store). node_run store config shown enroll_shown x inputs) e ∙ rest

  -- The node after those four steps.
  abbrev back : Node store → ℕ → Credential → Node store
  back n conn new = record {
    loop = record n.loop {
      phase = serving conn;
      reenrolled_after_refusal = false;
      live = some conn;
      log = connected conn ∷ forgot_credential ∷ n.loop.log;
    };
    grant = renewed new (emptied n.grant);
  }

  module _ (n : Node store) (old new : Credential) (error : ConnectError) (conn : ℕ) (turn : Turn)
      (p : Text) (refusal : refusal_of error ≡ reenroll) (polled : turn.polled ≡ ok (granted new))
      (shows : token_prefix new.secret ≡ some p) where
    -- A node that dials with a stored credential, and has not enrolled again since its last
    -- connection: where the server refuses it, somebody approves the next code, and the store works,
    -- the node is back on the next dial, without a restart and without a wait. The new credential is
    -- held and in the store, a second code was shown, and the next refusal may be mended again.
    pub revoked_node_returns :
        n.loop.phase ≡ dialling old.secret
        → n.loop.reenrolled_after_refusal ≡ false
        → n.grant.held ≡ some old
        → (store.load n.grant.stored).0 ≡ ok (some old)
        → let after =
            node_run store config shown enroll_shown n
              (dials (err error) ∷ forgets ∷ asks (ok tt) (turn ∷ []) ∷ dials (ok conn) ∷ []) in
          (after.loop.phase ≡ serving conn)
          × (after.loop.log ≡ connected conn ∷ forgot_credential ∷ n.loop.log)
          × (after.loop.reenrolled_after_refusal ≡ false)
          × (after.grant.held ≡ some new)
          × (after.grant.notices ≡ authorized_notice ∷ show_code ∷ n.grant.notices)
          × (new.version ≡ credential_version → (store.load after.grant.stored).0 ≡ ok (some new))
    unfolding node_run
    revoked_node_returns dials_old flag held loads =
        subst
          (λ (after : Node store).
            (after.loop.phase ≡ serving conn)
            × (after.loop.log ≡ connected conn ∷ forgot_credential ∷ n.loop.log)
            × (after.loop.reenrolled_after_refusal ≡ false)
            × (after.grant.held ≡ some new)
            × (after.grant.notices ≡ authorized_notice ∷ show_code ∷ n.grant.notices)
            × (new.version ≡ credential_version
                → (store.load after.grant.stored).0 ≡ ok (some new)))
          (sym walked) (refl, refl, refl, refl, refl, reads)
      where
        forgetting_node : Node store
        forgetting_node = record n {
          loop = record n.loop { phase = forgetting error; reenrolled_after_refusal = true };
        }

        forgotten_node : Node store
        forgotten_node = record {
          loop = record forgetting_node.loop {
            phase = asking;
            log = forgot_credential ∷ n.loop.log;
          };
          grant = emptied n.grant;
        }

        dialling_node : Node store
        dialling_node = record {
          loop = record forgotten_node.loop { phase = dialling new.secret };
          grant = renewed new (emptied n.grant);
        }

        empty_store : (store.load (emptied n.grant).stored).0 ≡ ok none
        empty_store =
            laws.load-clear (store.load n.grant.stored).1 (emptied n.grant).stored
              (ap (λ r. (r, (emptied n.grant).stored)) (works.clears (store.load n.grant.stored).1))

        walked :
            node_run store config shown enroll_shown n
              (dials (err error) ∷ forgets ∷ asks (ok tt) (turn ∷ []) ∷ dials (ok conn) ∷ [])
            ≡ back n conn new
        walked =
            step_run n forgetting_node (dials (err error))
              (forgets ∷ asks (ok tt) (turn ∷ []) ∷ dials (ok conn) ∷ []) (back n conn new)
              (refusal_step n old.secret error dials_old flag refusal)
              (step_run forgetting_node forgotten_node forgets
                (asks (ok tt) (turn ∷ []) ∷ dials (ok conn) ∷ []) (back n conn new)
                (forget_step forgetting_node error (emptied n.grant) refl
                  (forgets-old old n.grant held loads))
                (step_run forgotten_node dialling_node (asks (ok tt) (turn ∷ []))
                  (dials (ok conn) ∷ []) (back n conn new)
                  (ask_step forgotten_node (turn ∷ []) new.secret p (renewed new (emptied n.grant))
                    refl (enrolls-new new turn (emptied n.grant) refl empty_store polled) shows)
                  (step_run dialling_node (back n conn new) (dials (ok conn)) [] (back n conn new)
                    (connect_step dialling_node new.secret conn refl) refl)))

        reads :
            new.version ≡ credential_version
            → (store.load (renewed new (emptied n.grant)).stored).0 ≡ ok (some new)
        reads v =
            let before = (store.load (emptied n.grant).stored).1 in
            laws.load-save new before (store.save new before).1 v
              (ap (λ r. (r, (store.save new before).1)) (works.saves new before))
