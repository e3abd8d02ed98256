-- ===== src/Monitor/Tests.antt =====
-- Calls of `monitor` on a node with no docker.
use zyris_docker.Prelude.{ℕ, ◌≡◌, refl, true, false, Option, none, List, Result, ok, err}
use zyris_docker.Prelude.Text.{Text, codes, trim, trim_matches, is_whitespace}
use zyris_docker.Json.{Value}
use zyris_docker.Cli.{Command}
use zyris_docker.System.{F32, ProcFiles}
use zyris_docker.Monitor.{World, logs, action, run_action, serve}

abbrev whole_numbers : F32
whole_numbers = record {
  F = ℕ;
  of_u64 = λ n. n;
  add = λ x y. x;
  div = λ x y. x;
  mul = λ x y. x;
  max = λ x y. x;
  parse = λ t. none;
}

abbrev decode : List ℕ → Text
decode bytes = bytes

abbrev no_json : Text → Option Value
no_json t = none

abbrev no_slice : List ℕ → Result Text Value
no_slice bytes = err (codes "no JSON")

abbrev missing : Command
missing args = err (codes "No such file or directory")

-- A docker that answers everything on its standard output and its standard error.
abbrev talkative : Command
talkative args = ok (record { success = true; stdout = codes "out\n"; stderr = codes "err\n" })

abbrev no_files : ProcFiles
no_files = record {
  hostname = none;
  stat_before = none;
  stat_after = none;
  meminfo_total = none;
  meminfo_available = none;
  meminfo_swap_total = none;
  meminfo_swap_free = none;
  loadavg = none;
  uptime = none;
  statvfs = none;
  entries = none;
}

abbrev bare_world : World
bare_world = record { files = no_files; docker = missing; kubectl = missing }

abbrev docker_world : World
docker_world = record { files = no_files; docker = talkative; kubectl = missing }

-- What the container wrote to its standard error is not in the answer.
logs_without_stderr :
    serve whole_numbers
      (λ t. none)
      decode
      no_json
      no_slice
      docker_world
      (logs (codes "web") 20 false)
    ≡ ok (action (record { ok = true; output = codes "out" }))
unfolding serve run_action trim trim_matches is_whitespace
logs_without_stderr = refl
