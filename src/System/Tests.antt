-- ===== src/System/Tests.antt =====
-- Lines of /proc, and the theorems on them.
use zyris_docker.Prelude.{
  ℕ, ◌+◌, ◌*◌, ◌/◌, ◌≡◌, ◌↔◌, refl, true, none, some, List, [], ◌∷◌, All, Any, leb, if◌then◌else◌,
  arith,
}
use zyris_docker.Prelude.Int.{pos}
use zyris_docker.Prelude.Text.{
  Text, codes, text_eq, lines, split, is_whitespace, is_empty, trim, trim_matches,
}
use zyris_docker.Config.{parse_u64, digits_value}
use zyris_docker.System.Defs.{
  split_once, rsplit_once, split_on, split_whitespace, number_at, comm_of, parse_proc_stat,
  process_running,
}
use zyris_docker.System.Processes.{ProcEntry, parse_i32, process_list}
use zyris_docker.System.Tasks.{
  Task, IsPlain, nothing, task, no_process, entry_of, info_of, process_list-tasks,
}
use zyris_docker.System.Snapshot.{F32, ProcFiles, read_file, cpu_times, busy, cpu_percent}
use zyris_docker.System.Stat.{IsField}

-- The line of the program's own test, and what the program reads there.
test_line :
    parse_proc_stat
      (pos 1234)
      (codes "1234 (my cool proc) S 1 2 3 4 5 6 0 0 0 0 0 0 0 100 50 0 10 0 0 0 0 0 100 200 0")
      []
    ≡ some (record {
      pid = pos 1234;
      name = codes "my cool proc";
      state = codes "S";
      rss_bytes = 409600;
      cpu_secs = 1;
      cmdline = [];
    })
unfolding parse_proc_stat split_once rsplit_once split_whitespace split_on number_at comm_of
    parse_u64 digits_value is_empty trim trim_matches is_whitespace
test_line = refl

abbrev two_fields : List Text
two_fields = codes "S" ∷ codes "17" ∷ []

two_fields-IsField : All IsField two_fields
unfolding is_whitespace is_empty
two_fields-IsField = ((refl, (refl, tt)), ((refl, (refl, (refl, tt))), tt))

-- Thousandths in place of floats.
abbrev thousandths : F32
thousandths = record {
  F = ℕ;
  of_u64 = λ n. n * 1000;
  add = λ x y. x + y;
  div = λ x y. x * 1000 / y;
  mul = λ x y. x * y / 1000;
  max = λ x y. if leb x y then y else x;
  parse = λ t. none;
}

abbrev quiet_files : ProcFiles
quiet_files = record {
  hostname = some (codes "node\n");
  stat_before = some (codes "cpu  10 0 10 80 0 0 0 0\n");
  stat_after = some (codes "cpu  40 0 20 140 0 0 0 0\n");
  meminfo_total = some (codes "MemTotal: 8 kB\n");
  meminfo_available = some (codes "MemAvailable: 6 kB\n");
  meminfo_swap_total = none;
  meminfo_swap_free = none;
  loadavg = none;
  uptime = none;
  statvfs = some (record { f_bsize = 4096; f_blocks = 10; f_bfree = 4 });
  entries = none;
}

abbrev no_text : List ℕ → Text
no_text bytes = []

-- 40 busy ticks of 100.
forty_percent :
    cpu_percent thousandths (read_file quiet_files.stat_before) (read_file quiet_files.stat_after)
    ≡ 40000
unfolding cpu_percent cpu_times busy lines split_whitespace split_on is_whitespace is_empty split
    text_eq parse_u64 digits_value
forty_percent = refl

abbrev shell_task : Task
shell_task = record { pid = 7; comm = codes "sh"; fields = two_fields; arguments = none }

shell-IsPlain : IsPlain shell_task
shell-IsPlain = record {
  pid_fits = omega arith;
  no_open = (refl, (refl, tt));
  no_close = (refl, (refl, tt));
  fields_plain = two_fields-IsField;
}

abbrev self_entry : ProcEntry
self_entry = record { file_name = codes "self"; stat = none; cmdline = none }

self_is_no_process : parse_i32 self_entry.file_name ≡ none
unfolding parse_i32
self_is_no_process = refl

process_list-tasks_example :
    (process_list no_text (some (some self_entry ∷ some (entry_of shell_task) ∷ []))
      ≡ info_of no_text shell_task ∷ [])
    × ((process_running
            (process_list no_text (some (some self_entry ∷ some (entry_of shell_task) ∷ [])))
            (codes "sh")
          ≡ true)
        ↔ Any (λ (t : Task). trim t.comm ≡ codes "sh") (shell_task ∷ []))
process_list-tasks_example =
    process_list-tasks no_text (some self_entry ∷ some (entry_of shell_task) ∷ []) (shell_task ∷ [])
      (codes "sh")
      (no_process self_entry self_is_no_process (task shell_task shell-IsPlain nothing))
