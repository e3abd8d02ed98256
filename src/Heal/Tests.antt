-- ===== src/Heal/Tests.antt =====
-- A watcher of one process, and the theorems on its runs.
use zyris_docker.Prelude.{
  some, Option, none, All, ◌≡◌, refl, Bool, true, false, List, [], ◌∷◌, map, inl, ok,
}
use zyris_docker.Prelude.Text.{Text, codes, text_eq}
use zyris_docker.Heal.Defs.{
  Incident, Probes, Watched, process_incident, sample, key, contains, report_loop, tick, Tick,
  heal_run,
}
use zyris_docker.Heal.Reports.{times}
use zyris_docker.Heal.News.{news_run, heal_run-news}
use zyris_docker.Config.{Config}
use zyris_docker.Heal.Report.{
  Api, listed, created, sent, incident_body, new_session, report_incident, IsRight,
  report_incident-IsRight,
}
use zyris_docker.Heal.Keys.{sample-key}

abbrev watched : Watched
watched = record { watch_processes = codes "nginx" ∷ []; watch_containers = []; watch_k8s = false }

abbrev all_down : Probes
all_down = record {
  process_up = λ name. false;
  container_up = λ name. false;
  cluster_pods = ok [];
  cluster_nodes = ok [];
}

abbrev down : Incident
down = record {
  kind = codes "process";
  name = codes "nginx";
  detail = codes "required process `nginx` is not running in this container";
}

nginx_sampled : sample watched all_down ≡ down ∷ []
unfolding sample process_incident
nginx_sampled = refl

abbrev tick_of : List Incident → Bool → Tick
tick_of incidents connected = record { incidents = incidents; connected = connected }

-- Down twice, back up, and down again.
abbrev flapping : List Tick
flapping =
    tick_of (down ∷ []) true
    ∷ tick_of (down ∷ []) true
    ∷ tick_of [] true
    ∷ tick_of (down ∷ []) true
    ∷ []

flapping_reports :
    map (λ spawned. times (key down) (map key spawned)) (heal_run [] flapping) ≡ 1 ∷ 0 ∷ 0 ∷ 1 ∷ []
unfolding heal_run tick report_loop key text_eq
flapping_reports = refl

heal_run-news_example : heal_run [] flapping ≡ news_run (λ k. contains k []) flapping
heal_run-news_example = heal_run-news [] flapping

sample-key_example : (down.kind ≡ down.kind) × (down.name ≡ down.name)
unfolding sample process_incident
sample-key_example = sample-key watched all_down all_down down down (inl refl) (inl refl) refl

abbrev config : Config
config = record {
  monitor_interval = 30;
  watch_processes = codes "nginx" ∷ [];
  watch_containers = [];
  watch_k8s = false;
  heal_agent_id = none;
  heal_project_id = none;
  heal_preamble = codes "mend it";
  file_roots = [];
  exec_timeout = 120;
}

-- The server lists two agents and creates session `s1`.
abbrev api : Api
api = record {
  wait_capability = ok tt;
  list_agents = ok (codes "a1" ∷ codes "a2" ∷ []);
  create_session = λ session. ok (codes "s1");
}

abbrev node_path : Option Text
node_path = some (codes "srv-a/zyris-docker/web-1")

report_calls :
    report_incident config node_path down api
    ≡ listed
      ∷ created (new_session config node_path down api (codes "a1"))
      ∷ sent (codes "s1") (incident_body down.detail node_path)
      ∷ []
unfolding report_incident
report_calls = refl

report_incident-IsRight_example :
    All (IsRight config node_path down api) (report_incident config node_path down api)
report_incident-IsRight_example = report_incident-IsRight config node_path down api
