-- ===== src/Heal/SlotTests.antt =====
-- A watcher of a node that connects, whose connection drops, and that connects again.
use zyris_docker.Prelude.{◌≡◌, refl, none, some, List, [], ◌∷◌, ◌++◌, map, ok}
use zyris_docker.Prelude.Text.{Text, codes}
use zyris_docker.Runtime.Credentials.{token_prefix}
use zyris_docker.Runtime.Config.{RunConfig, default_config}
use zyris_docker.Runtime.Runner.{
  ConnectError, got_bearer, dialled, closed, slept, serving, start, on_bearer, on_dialled, step,
}
use zyris_docker.Heal.Defs.{Incident, key, contains}
use zyris_docker.Heal.Reports.{is_down}
use zyris_docker.Heal.News.{news}
use zyris_docker.Heal.Slot.{
  Watch, WatchEvent, loop_event, hook_runs, sampled, watch_step, watch_run, start_watch,
  reports_in_slot, slot_is_live,
}

abbrev config : RunConfig
config = default_config (codes "wss://a") none

abbrev shown : ConnectError → Text
shown e = codes "refused"

abbrev down : Incident
down = record { kind = codes "process"; name = codes "nginx"; detail = codes "down" }

abbrev connecting : List WatchEvent
connecting =
    loop_event (got_bearer (ok (codes "zc_1"))) ∷ loop_event (dialled (ok 7)) ∷ hook_runs 0 ∷ []

abbrev connected : Watch
connected = watch_run config shown (start_watch config shown (some [])) connecting

connects : connected.loop.phase ≡ serving 7
unfolding watch_run watch_step start_watch start step on_bearer on_dialled token_prefix
connects = refl

hooked : connected.slot ≡ some 7
unfolding watch_run watch_step start_watch start step on_bearer on_dialled token_prefix
hooked = refl

hooks_done : connected.hooks ≡ []
unfolding watch_run watch_step start_watch start step on_bearer on_dialled token_prefix
hooks_done = refl

-- The next connection's hook has not run yet.
abbrev reconnecting : List WatchEvent
reconnecting =
    loop_event (closed 50)
    ∷ loop_event (slept 3)
    ∷ loop_event (got_bearer (ok (codes "zc_1")))
    ∷ loop_event (dialled (ok 8))
    ∷ []

reports_in_slot_example :
    let v = watch_run config shown connected reconnecting in
    let ticked = watch_step config shown v (sampled (down ∷ [])) in
    (ticked.sent ≡ map (λ i. (7, i)) (news (λ x. contains x v.reported) (down ∷ [])) ++ v.sent)
    × (contains (key down) ticked.reported ≡ is_down (key down) (down ∷ []))
reports_in_slot_example =
    reports_in_slot config shown connected reconnecting 7 (down ∷ []) (key down) hooked
      (tt, (tt, (tt, (tt, tt))))

slot_is_live_example : connected.slot ≡ some 7
slot_is_live_example =
    slot_is_live config shown (some []) connecting 7 (tt, (tt, (refl, tt))) connects hooks_done
