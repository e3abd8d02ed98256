-- ===== src/Heal/Slot.antt =====
-- The slot of src/heal.rs between the dial loop and the watcher. The `on_connect` hook of src/main.rs
-- puts each connection in, in a task of its own that runs some time after the dial and not within a
-- tick, and a tick takes out what is there.
use zyris_docker.Prelude.{
  ℕ, zero, suc, true, false, ◌≡◌, ◌≢◌, ◌⊎◌, refl, ◌∙◌, Option, none, some, List, [], ◌∷◌, ◌++◌, map,
  All, append-nil, sym, Bool, Result, ok, err, Option-cases, Bool-cases, inl, inr, subst,
}
use zyris_docker.Prelude.Text.{Text}
use zyris_docker.Runtime.Credentials.{
  CredentialsError, needs_operator, fatal, unavailable, token_prefix,
}
use zyris_docker.Runtime.Config.{RunConfig, is_some}
use zyris_docker.Runtime.Runner.{
  ConnectError, Refusal, reenroll, fatal_refusal, backoff_refusal, refusal_of, Phase, asking,
  dialling, serving, forgetting, waiting, Loop, Event, got_bearer, dialled, closed, forgot, slept,
  stop_signal, start, on_bearer, on_refusal, on_dialled, on_closed, on_forgot, on_slept, on_stop,
  dispatch, step,
}
use zyris_docker.Heal.Defs.{Incident, contains, tick}
use zyris_docker.Heal.Reports.{is_down, tick-keys}
use zyris_docker.Heal.News.{news, tick-news}

-- The loop and the watcher: the connections whose hook has been spawned and has not run yet, oldest
-- first, the slot, which nothing empties, the keys reported, and what was sent on which connection,
-- newest first.
pub record Watch : Type 0 where
  pub loop : Loop
  pub hooks : List ℕ
  pub slot : Option ℕ
  pub reported : List Text
  pub sent : List (ℕ × Incident)

pub data WatchEvent : Type 0 where
  loop_event : Event → WatchEvent
  -- The hook at this place among those that have not run runs.
  hook_runs : ℕ → WatchEvent
  -- A tick of the watcher, whose sample found these incidents.
  sampled : List Incident → WatchEvent

-- `tokio::spawn(hook(conn.clone()))`, where a dial succeeds.
abbrev pub spawned_hook : Phase → Event → List ℕ
spawned_hook (dialling bearer) (dialled (ok conn)) = conn ∷ []
spawned_hook _ _ = []

abbrev kept : ℕ → Option (ℕ × List ℕ) → Option (ℕ × List ℕ)
kept conn none = none
kept conn (some (found, rest)) = some (found, conn ∷ rest)

abbrev pub take_out : ℕ → List ℕ → Option (ℕ × List ℕ)
take_out n [] = none
take_out zero (conn ∷ hooks) = some (conn, hooks)
take_out (suc n) (conn ∷ hooks) = kept conn (take_out n hooks)

-- `ConnSlot::put`, in the hook that runs.
abbrev pub put : Watch → Option (ℕ × List ℕ) → Watch
put w none = w
put w (some (conn, rest)) = record w { hooks = rest; slot = some conn }

abbrev pub sent_on : Option ℕ → List Incident → List (ℕ × Incident)
sent_on none incidents = []
sent_on (some conn) incidents = map (λ i. (conn, i)) incidents

module _ (config : RunConfig) (shown : ConnectError → Text) where
  unfoldable pub watch_step : Watch → WatchEvent → Watch
  watch_step w (loop_event event) = record w {
    loop = step config shown w.loop event;
    hooks = w.hooks ++ spawned_hook w.loop.phase event;
  }
  watch_step w (hook_runs n) = put w (take_out n w.hooks)
  watch_step w (sampled incidents) =
      let (spawned, after) = tick (is_some w.slot) incidents w.reported in
      record w { reported = after; sent = sent_on w.slot spawned ++ w.sent }

  unfoldable pub watch_run : Watch → List WatchEvent → Watch
  unfolding watch_step
  watch_run w [] = w
  watch_run w (event ∷ events) = watch_run (watch_step w event) events

  unfoldable pub start_watch : Option Text → Watch
  start_watch described = record {
    loop = start config shown described;
    hooks = [];
    slot = none;
    reported = [];
    sent = [];
  }

  -- Anything but a hook.
  abbrev pub NoHook : WatchEvent → Type 0
  NoHook (loop_event event) = Unit
  NoHook (hook_runs n) = ⊥
  NoHook (sampled incidents) = Unit

  slot_stays :
      (w : Watch) (events : List WatchEvent)
      → All NoHook events
      → (watch_run w events).slot ≡ w.slot
  unfolding watch_run watch_step
  slot_stays w [] h = refl
  slot_stays w (loop_event event ∷ events) h =
      slot_stays (watch_step w (loop_event event)) events h.1
  slot_stays w (hook_runs n ∷ events) h = absurd h.0
  slot_stays w (sampled incidents ∷ events) h =
      slot_stays (watch_step w (sampled incidents)) events h.1

  -- Once the slot holds a connection, and for as long as no `on_connect` hook runs, whatever
  -- the loop does, be it that this connection drops or that the loop reconnects: a tick sends
  -- what is new in its sample, each incident once, on that connection, and what counts as
  -- reported after it is exactly what it found down.
  pub reports_in_slot :
      (w : Watch) (events : List WatchEvent) (conn : ℕ) (incidents : List Incident) (k : Text)
      → w.slot ≡ some conn
      → All NoHook events
      → let v = watch_run w events in
        let ticked = watch_step v (sampled incidents) in
        (ticked.sent ≡ map (λ i. (conn, i)) (news (λ x. contains x v.reported) incidents) ++ v.sent)
        × (contains k ticked.reported ≡ is_down k incidents)
  unfolding watch_step
  reports_in_slot w events conn incidents k held quiet =
      let v = watch_run w events in
      let same : v.slot ≡ some conn = slot_stays w events quiet ∙ held in
      (
        rw same rw (tick-news true incidents v.reported) refl,
        rw same (tick-keys true incidents v.reported k),
      )

  -- The first of the hooks that have not run.
  abbrev pub InOrder : WatchEvent → Type 0
  InOrder (loop_event event) = Unit
  InOrder (hook_runs n) = n ≡ 0
  InOrder (sampled incidents) = Unit

  -- What the slot holds once every hook has run, in order.
  abbrev newest : List ℕ → Option ℕ → Option ℕ
  newest [] slot = slot
  newest (conn ∷ hooks) slot = newest hooks (some conn)

  newest_last :
      (hooks : List ℕ) (slot : Option ℕ) (conn : ℕ) → newest (hooks ++ conn ∷ []) slot ≡ some conn
  newest_last [] slot conn = refl
  newest_last (c ∷ hooks) slot conn = newest_last hooks (some c) conn

  bearer_waits :
      (s : Loop) (r : Result CredentialsError Text) (c : ℕ)
      → (on_bearer config shown s r).phase ≢ serving c
  unfolding on_bearer
  bearer_waits s (ok b) c = elim (Option-cases (token_prefix b)) [
    | inl e ↦ rw (e, on_bearer) (λ h. cc)
    | inr (p, e) ↦ rw (e, on_bearer) (λ h. cc)
  ]
  bearer_waits s (err (unavailable m)) c = λ h. cc
  bearer_waits s (err (needs_operator m)) c = λ h. cc
  bearer_waits s (err (fatal m)) c = λ h. cc

  refusal_waits :
      (s : Loop) (e : ConnectError) (r : Refusal) (c : ℕ)
      → (on_refusal config shown s e r).phase ≢ serving c
  unfolding on_refusal
  refusal_waits s e reenroll c = elim (Bool-cases s.reenrolled_after_refusal) [
    | inl f ↦ rw f (λ h. cc)
    | inr f ↦ rw f (λ h. cc)
  ]
  refusal_waits s e fatal_refusal c = λ h. cc
  refusal_waits s e backoff_refusal c = λ h. cc

  forgot_waits :
      (s : Loop) (e : ConnectError) (r : Result CredentialsError Bool) (c : ℕ)
      → (on_forgot config shown s e r).phase ≢ serving c
  unfolding on_forgot
  forgot_waits s e (ok true) c = λ h. cc
  forgot_waits s e (ok false) c = λ h. cc
  forgot_waits s e (err (unavailable m)) c = λ h. cc
  forgot_waits s e (err (needs_operator m)) c = λ h. cc
  forgot_waits s e (err (fatal m)) c = λ h. cc

  stop_waits : (s : Loop) (c : ℕ) → (on_stop config shown s).phase ≢ serving c
  unfolding on_stop
  stop_waits s c = elim (Option-cases s.live) [
    | inl e ↦ rw (e, on_stop) (λ h. cc)
    | inr (conn, e) ↦ rw (e, on_stop) (λ h. cc)
  ]

  -- A loop that serves a connection has just dialled it, and spawned its hook, or served it before.
  abbrev Serves : Phase → Event → ℕ → Type 0
  Serves phase event conn =
      (spawned_hook phase event ≡ conn ∷ [])
      ⊎ ((spawned_hook phase event ≡ []) × (phase ≡ serving conn))

  dialled-Serves :
      (s : Loop) (b : Text) (r : Result ConnectError ℕ) (conn : ℕ)
      → (on_dialled config shown s r).phase ≡ serving conn
      → Serves (dialling b) (dialled r) conn
  unfolding on_dialled
  dialled-Serves s b (ok c) conn h = inl (cc)
  dialled-Serves s b (err e) conn h = absurd (refusal_waits s e (refusal_of e) conn h)

  dispatch-Serves :
      (phase : Phase) (s : Loop) (event : Event) (conn : ℕ)
      → s.phase ≡ phase
      → (dispatch config shown phase s event).phase ≡ serving conn
      → Serves phase event conn
  unfolding on_closed on_slept
  dispatch-Serves asking s (got_bearer r) conn e h = absurd (bearer_waits s r conn h)
  dispatch-Serves asking s stop_signal conn e h = absurd (stop_waits s conn h)
  dispatch-Serves (dialling b) s (dialled r) conn e h = dialled-Serves s b r conn h
  dispatch-Serves (dialling b) s stop_signal conn e h = absurd (stop_waits s conn h)
  dispatch-Serves (serving c) s (closed up) conn e h = cc
  dispatch-Serves (serving c) s stop_signal conn e h = absurd (stop_waits s conn h)
  dispatch-Serves (forgetting x) s (forgot r) conn e h = absurd (forgot_waits s x r conn h)
  dispatch-Serves (forgetting x) s stop_signal conn e h = absurd (stop_waits s conn h)
  dispatch-Serves waiting s (slept hash) conn e h = cc
  dispatch-Serves waiting s stop_signal conn e h = absurd (stop_waits s conn h)
  dispatch-Serves _ s _ conn e h = inr (refl, (cc))

  -- The connection that is served is the one that the slot comes to hold.
  abbrev Slotted : Watch → Type 0
  Slotted w = (conn : ℕ) → w.loop.phase ≡ serving conn → newest w.hooks w.slot ≡ some conn

  loop-Slotted : (w : Watch) (event : Event) → Slotted w → Slotted (watch_step w (loop_event event))
  unfolding watch_step step
  loop-Slotted w event h conn p = elim (dispatch-Serves w.loop.phase w.loop event conn refl p) [
    | inl e ↦ rw e (newest_last w.hooks w.slot conn)
    | inr (e, before) ↦ rw (e, append-nil w.hooks) (h conn before)
  ]

  put-Slotted :
      (w : Watch) (hooks : List ℕ)
      → w.hooks ≡ hooks
      → Slotted w
      → Slotted (put w (take_out 0 hooks))
  put-Slotted w [] e h = h
  put-Slotted w (c ∷ hooks) e h = λ conn p. subst (λ l. newest l w.slot ≡ some conn) e (h conn p)

  run-Slotted :
      (w : Watch) (events : List WatchEvent)
      → All InOrder events
      → Slotted w
      → Slotted (watch_run w events)
  unfolding watch_run
  run-Slotted w [] order h = h
  run-Slotted w (loop_event event ∷ events) order h =
      run-Slotted (watch_step w (loop_event event)) events order.1 (loop-Slotted w event h)
  run-Slotted w (hook_runs n ∷ events) order h =
      run-Slotted (watch_step w (hook_runs n)) events order.1 (
        unfold watch_step in
        subst (λ m. Slotted (put w (take_out m w.hooks))) (sym order.0)
          (put-Slotted w w.hooks refl h))
  run-Slotted w (sampled incidents ∷ events) order h =
      run-Slotted (watch_step w (sampled incidents)) events order.1 (unfold watch_step in h)

  start-Slotted : (described : Option Text) → Slotted (start_watch described)
  unfolding start_watch start
  start-Slotted none = λ c h. cc
  start-Slotted (some d) = λ c h. cc

  -- In every run where the hooks run in the order of their connections: while a connection is
  -- served and no hook is left to run, the slot holds that connection.
  pub slot_is_live :
      (described : Option Text) (events : List WatchEvent) (conn : ℕ)
      → All InOrder events
      → let w = watch_run (start_watch described) events in
        w.loop.phase ≡ serving conn → w.hooks ≡ [] → w.slot ≡ some conn
  slot_is_live described events conn order p idle =
      let w = watch_run (start_watch described) events in
      subst (λ l. newest l w.slot ≡ some conn) idle
        (run-Slotted (start_watch described) events order (start-Slotted described) conn p)
