-- ===== src/Node/Induction.antt =====
-- What every input keeps, under a condition on the inputs, every run of a node keeps.
use zyris_docker.Prelude.{
  ℕ, Bool, ◌≡◌, refl, sym, subst, Option, none, some, List, [], ◌∷◌, All, Result,
}
use zyris_docker.Prelude.Text.{Text}
use zyris_docker.Runtime.Credentials.{CredentialsError}
use zyris_docker.Runtime.Config.{RunConfig}
use zyris_docker.Runtime.Runner.{
  ConnectError, Phase, asking, dialling, serving, forgetting, waiting, stopped, panicked,
  got_bearer, dialled, closed, forgot, slept, stop_signal, on_bearer, on_dialled, on_closed,
  on_forgot, on_slept, on_stop, dispatch, step,
}
use zyris_docker.Runtime.Store.{CredentialStore}
use zyris_docker.Enroll.{EnrollError, Turn, Grant, bearer, forget_refused}
use zyris_docker.Node.{
  Input, asks, dials, drops, forgets, wakes, stops, sibling, Node, bearer_answered, forgot_answered,
  on_input, node_step, node_run,
}

module _ (store : CredentialStore) (config : RunConfig) (shown : ConnectError → Text)
    (enroll_shown : EnrollError → Text) (Allowed : Input store → Type 0)
    (P : Node store → Type 0) where
  -- One rule for each input that the loop may wait for.
  pub record NodeKeeps : Type 0 where
    pub keep_ask :
        (n : Node store) (first : Result EnrollError (Unit {0})) (turns : List Turn)
        (r : Result CredentialsError Text) (g : Grant store)
        → n.loop.phase ≡ asking
        → Allowed (asks first turns)
        → bearer store enroll_shown first turns n.grant ≡ (some r, g)
        → P n
        → P (record { loop = on_bearer config shown n.loop r; grant = g })
    pub keep_dial :
        (n : Node store) (b : Text) (r : Result ConnectError ℕ)
        → n.loop.phase ≡ dialling b
        → P n
        → P (record n { loop = on_dialled config shown n.loop r })
    pub keep_drop :
        (n : Node store) (c up : ℕ)
        → n.loop.phase ≡ serving c
        → P n
        → P (record n { loop = on_closed config shown n.loop up })
    pub keep_forget :
        (n : Node store) (e : ConnectError) (r : Result CredentialsError Bool) (g : Grant store)
        → n.loop.phase ≡ forgetting e
        → forget_refused store n.grant ≡ (r, g)
        → P n
        → P (record { loop = on_forgot config shown n.loop e r; grant = g })
    pub keep_wake :
        (n : Node store) (hash : ℕ)
        → n.loop.phase ≡ waiting
        → P n
        → P (record n { loop = on_slept config shown n.loop hash })
    pub keep_stop : (n : Node store) → P n → P (record n { loop = on_stop config shown n.loop })
    pub keep_sibling :
        (n : Node store) (stored : store.State)
        → Allowed (sibling stored)
        → P n
        → P (record n { grant = record n.grant { stored = stored } })

  module _ (keeps : NodeKeeps) where
    dials_keep :
        (phase : Phase) (n : Node store) (r : Result ConnectError ℕ)
        → n.loop.phase ≡ phase
        → P n
        → P (record n { loop = dispatch config shown phase n.loop (dialled r) })
    dials_keep (dialling b) n r e h = keeps.keep_dial n b r e h
    dials_keep _ n r e h = h

    drops_keep :
        (phase : Phase) (n : Node store) (up : ℕ)
        → n.loop.phase ≡ phase
        → P n
        → P (record n { loop = dispatch config shown phase n.loop (closed up) })
    drops_keep (serving c) n up e h = keeps.keep_drop n c up e h
    drops_keep _ n up e h = h

    wakes_keep :
        (phase : Phase) (n : Node store) (hash : ℕ)
        → n.loop.phase ≡ phase
        → P n
        → P (record n { loop = dispatch config shown phase n.loop (slept hash) })
    wakes_keep waiting n hash e h = keeps.keep_wake n hash e h
    wakes_keep _ n hash e h = h

    stops_keep :
        (phase : Phase) (n : Node store)
        → P n
        → P (record n { loop = dispatch config shown phase n.loop stop_signal })
    stops_keep (stopped outcome) n h = h
    stops_keep panicked n h = h
    stops_keep _ n h = keeps.keep_stop n h

    asks_keep :
        (n : Node store) (first : Result EnrollError (Unit {0})) (turns : List Turn)
        (reply : Option (Result CredentialsError Text) × Grant store)
        → n.loop.phase ≡ asking
        → Allowed (asks first turns)
        → bearer store enroll_shown first turns n.grant ≡ reply
        → P n
        → P (bearer_answered store config shown enroll_shown n reply)
    unfolding step
    asks_keep n first turns (none, g) e allowed answered h = h
    asks_keep n first turns (some r, g) e allowed answered h =
        subst
          (λ (phase : Phase).
            P (record { loop = dispatch config shown phase n.loop (got_bearer r); grant = g }))
          (sym e) (keeps.keep_ask n first turns r g e allowed answered h)

    forgets_keep :
        (n : Node store) (x : ConnectError)
        → n.loop.phase ≡ forgetting x
        → P n
        → P (forgot_answered store config shown enroll_shown n (forget_refused store n.grant))
    unfolding step
    forgets_keep n x e h =
        let (r, g) = forget_refused store n.grant in
        subst
          (λ (phase : Phase).
            P (record { loop = dispatch config shown phase n.loop (forgot r); grant = g }))
          (sym e) (keeps.keep_forget n x r g e refl h)

    input_keeps :
        (input : Input store) (phase : Phase) (n : Node store)
        → n.loop.phase ≡ phase
        → Allowed input
        → P n
        → P (on_input store config shown enroll_shown input phase n)
    unfolding step
    input_keeps (dials r) phase n e allowed h = dials_keep n.loop.phase n r refl h
    input_keeps (drops up) phase n e allowed h = drops_keep n.loop.phase n up refl h
    input_keeps (wakes hash) phase n e allowed h = wakes_keep n.loop.phase n hash refl h
    input_keeps stops phase n e allowed h = stops_keep n.loop.phase n h
    input_keeps (sibling stored) phase n e allowed h = keeps.keep_sibling n stored allowed h
    input_keeps (asks first turns) asking n e allowed h = asks_keep n first turns _ e allowed refl h
    input_keeps forgets (forgetting x) n e allowed h = forgets_keep n x e h
    input_keeps _ _ n e allowed h = h

    pub node_run_keeps :
        (n : Node store) (inputs : List (Input store))
        → All Allowed inputs
        → P n
        → P (node_run store config shown enroll_shown n inputs)
    unfolding node_run
    node_run_keeps n [] allowed h = h
    node_run_keeps n (input ∷ inputs) (a, allowed) h =
        node_run_keeps (node_step store config shown enroll_shown n input) inputs allowed
          (unfold node_step in input_keeps input n.loop.phase n refl a h)
