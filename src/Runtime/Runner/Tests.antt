-- ===== src/Runtime/Runner/Tests.antt =====
-- Runs of the dial loop, and the theorems on them.
use zyris_docker.Prelude.{
  ◌*◌, ◌^◌, ◌≡◌, refl, true, false, Option, none, some, List, [], ◌∷◌, min, length, ok, err, arith,
}
use zyris_docker.Prelude.Text.{Text, codes, len, len_utf8}
use zyris_docker.Runtime.Credentials.{token_prefix, slice_to}
use zyris_docker.Runtime.Config.{RunConfig}
use zyris_docker.Runtime.Runner.{
  ConnectError, unauthorized, asking, stopped, Loop, Event, got_bearer, dialled, forgot,
  stop_signal, start, step, run, on_bearer, on_dialled,
}
use zyris_docker.Runtime.Runner.Backoff.{InRange, run-InRange}
use zyris_docker.Runtime.Runner.Failures.{
  Failure, source_down, server_down, events_of, backoff_after_failures,
}
use zyris_docker.Runtime.Runner.Reenroll.{Alternates, run-Alternates}
use zyris_docker.Runtime.Runner.Stops.{served, farewell, stop_closes_live}

abbrev config : RunConfig
config = record {
  url = codes "wss://a";
  node_name = codes "n";
  profile = codes "default";
  scopes = [];
  scopes_pinned = false;
  backoff_min = 1000;
  backoff_max = 30000;
  stable_after = 30000;
}

abbrev shown : ConnectError → Text
shown e = codes "refused"

abbrev source : Option Text
source = some (codes "device")

abbrev bearer : Text
bearer = codes "zc_old"

-- A refusal, a new credential, and a dial with it.
abbrev refused_once : List Event
refused_once =
    got_bearer (ok bearer)
    ∷ dialled (err unauthorized)
    ∷ forgot (ok true)
    ∷ got_bearer (ok bearer)
    ∷ []

-- A connection that is served.
abbrev connected_once : List Event
connected_once = got_bearer (ok bearer) ∷ dialled (ok 7) ∷ []

run-Alternates_example : Alternates (run config shown (start config shown source) refused_once).log
run-Alternates_example = run-Alternates config shown source refused_once

run-InRange_example :
    InRange config shown (omega arith) (run config shown (start config shown source) connected_once)
run-InRange_example = run-InRange config shown (omega arith) source connected_once

bearer_shown : token_prefix bearer ≡ some bearer
unfolding token_prefix slice_to len len_utf8
bearer_shown = refl

abbrev two_failures : List Failure
two_failures =
    source_down (codes "not there yet") 1
    ∷ server_down bearer bearer (codes "no route") bearer_shown 2
    ∷ []

backoff_after_failures_example :
    let t = run config shown (start config shown source) (events_of two_failures) in
    (t.phase ≡ asking) × (t.backoff ≡ min (1000 * 2 ^ length two_failures) 30000)
unfolding start
backoff_after_failures_example =
    backoff_after_failures config shown (start config shown source) two_failures refl (omega arith)

abbrev serving_seven : Loop
serving_seven = run config shown (start config shown source) connected_once

stop_closes_live_example :
    let t = step config shown serving_seven stop_signal in
    (t.phase ≡ stopped (ok tt))
    × (t.live ≡ none)
    × (t.log ≡ farewell (served serving_seven.phase) serving_seven.log)
unfolding run start step on_bearer on_dialled token_prefix slice_to len len_utf8
stop_closes_live_example = stop_closes_live config shown source connected_once tt
