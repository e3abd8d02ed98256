-- ===== src/System/Tasks.antt =====
-- The process list against the tasks of the kernel.
use zyris_docker.Prelude.{
  ℕ, ◌+◌, ◌*◌, ◌/◌, ◌%◌, ◌^◌, ◌<◌, ◌≡◌, ◌↔◌, refl, ap, true, false, Option, none, some, List, [],
  ◌∷◌, ◌++◌, map, ◌==◌, any, All, All-append, Any, Any-any, any_of_Any, ◌||◌, Option-cases, inl,
  inr, get_elem?, arith,
}
use zyris_docker.Prelude.Int.{pos}
use zyris_docker.Prelude.Text.{Text, codes, text_eq, text_eq_iff, trim}
use zyris_docker.Runtime.Config.{or_else}
use zyris_docker.Runtime.Store.{decimal}
use zyris_docker.Config.{parse_u64}
use zyris_docker.Config.Numbers.{parse_u64-decimal, decimal-All}
use zyris_docker.System.Defs.{ProcessInfo, number_at, parse_proc_stat, process_running}
use zyris_docker.System.Processes.{ProcEntry, parse_i32, cmdline_of, listed, process_list}
use zyris_docker.System.Stat.{Lacks, IsField, spaced, parse_proc_stat-fields}

-- A task: its id, its name, the fields of its `stat` behind the name, and its arguments.
pub record Task : Type 0 where
  pub pid : ℕ
  pub comm : Text
  pub fields : List Text
  pub arguments : Option (List ℕ)

-- Its id is an `i32`, and its name has no parenthesis in it.
pub record IsPlain (t : Task) : Type 0 where
  pub pid_fits : t.pid < 2 ^ 31
  pub no_open : Lacks b'(' t.comm
  pub no_close : Lacks b')' t.comm
  pub fields_plain : All IsField t.fields

-- `/proc/<pid>/stat`, which ends in a newline.
abbrev pub stat_line : Task → Text
stat_line t =
    (decimal t.pid ++ b' ' ∷ [])
    ++ (b'(' ∷ (t.comm ++ (b')' ∷ (b' ' ∷ (spaced t.fields ++ codes "\n")))))

-- What reading /proc gives of a task.
abbrev pub entry_of : Task → ProcEntry
entry_of t = record { file_name = decimal t.pid; stat = some (stat_line t); cmdline = t.arguments }

-- Entries that show these tasks, among others which are no process, or are gone when they are read.
pub data Shows : List (Option ProcEntry) → List Task → Type 0 where
  nothing : Shows [] []
  task :
      {es : List (Option ProcEntry)} {ts : List Task} (t : Task)
      → IsPlain t
      → Shows es ts
      → Shows (some (entry_of t) ∷ es) (t ∷ ts)
  no_process :
      {es : List (Option ProcEntry)} {ts : List Task} (e : ProcEntry)
      → parse_i32 e.file_name ≡ none
      → Shows es ts
      → Shows (some e ∷ es) ts
  vanished :
      {es : List (Option ProcEntry)} {ts : List Task} (e : ProcEntry)
      → e.stat ≡ none
      → Shows es ts
      → Shows (some e ∷ es) ts
  unreadable : {es : List (Option ProcEntry)} {ts : List Task} → Shows es ts → Shows (none ∷ es) ts

parse_i32-unsigned :
    (t : Text) (v : ℕ)
    → Lacks b'-' t
    → parse_u64 t ≡ some v
    → v < 2 ^ 31
    → parse_i32 t ≡ some (pos v)
unfolding parse_i32
parse_i32-unsigned [] v lacks e h = unfold parse_u64 in absurd (cc e)
parse_i32-unsigned (c ∷ s) v (no_sign, lacks) e h = rw (no_sign, e) ground arith

parse_i32-decimal : (n : ℕ) → n < 2 ^ 31 → parse_i32 (decimal n) ≡ some (pos n)
parse_i32-decimal n h =
    parse_i32-unsigned (decimal n) n
      (decimal-All (λ d. (d == b'-') ≡ false) (λ d k. ground arith) n)
      (parse_u64-decimal n (omega arith)) h

module _ (decode : List ℕ → Text) where
  abbrev pub info_of : Task → ProcessInfo
  info_of t = record {
    pid = pos t.pid;
    name = trim t.comm;
    state = or_else (get_elem? t.fields 0) [];
    rss_bytes = number_at t.fields 23 * 4096 % 2 ^ 64;
    cpu_secs =
        (number_at t.fields 14
          + number_at t.fields 15
          + number_at t.fields 16
          + number_at t.fields 17)
        % 2 ^ 64
        / 100;
    cmdline = cmdline_of decode t.arguments;
  }

  task_read :
      (t : Task)
      → IsPlain t
      → parse_proc_stat (pos t.pid) (stat_line t) (cmdline_of decode t.arguments) ≡ some (info_of t)
  task_read t plain =
      parse_proc_stat-fields (pos t.pid) (decimal t.pid ++ b' ' ∷ []) t.comm
        (cmdline_of decode t.arguments) t.fields
        (All-append (λ d. (d == b')') ≡ false) (decimal t.pid) (b' ' ∷ [])
          (decimal-All (λ d. (d == b')') ≡ false) (λ d k. ground arith) t.pid) (refl, tt))
        plain.no_close plain.no_open plain.fields_plain

  listed_tasks :
      {es : List (Option ProcEntry)} {ts : List Task}
      → Shows es ts
      → listed decode es ≡ map info_of ts
  listed_tasks nothing = refl
  listed_tasks (task t plain shows) =
      rw (parse_i32-decimal t.pid plain.pid_fits, task_read t plain)
        (ap (λ rest. info_of t ∷ rest) (listed_tasks shows))
  listed_tasks (no_process e name shows) = rw name (listed_tasks shows)
  listed_tasks (vanished e gone shows) = elim (Option-cases (parse_i32 e.file_name)) [
    | inl other ↦ rw other (listed_tasks shows)
    | inr (pid, found) ↦ rw (found, gone) (listed_tasks shows)
  ]
  listed_tasks (unreadable shows) = listed_tasks shows

  any_info :
      (name : Text) (ts : List Task)
      → any (λ p. text_eq p.name name) (map info_of ts)
        ≡ any (λ (t : Task). text_eq (trim t.comm) name) ts
  any_info name [] = refl
  any_info name (t ∷ ts) = ap (λ b. text_eq (trim t.comm) name || b) (any_info name ts)

  any_named :
      (name : Text) (ts : List Task)
      → (any (λ (t : Task). text_eq (trim t.comm) name) ts ≡ true)
        ↔ Any (λ t. trim t.comm ≡ name) ts
  any_named name ts = (
    Any-any (λ t. text_eq (trim t.comm) name) (λ t. (text_eq_iff (trim t.comm) name).0) ts,
    any_of_Any (λ t. text_eq (trim t.comm) name) (λ t. (text_eq_iff (trim t.comm) name).1) ts,
  )

  -- Where /proc shows some tasks, each with an id that is an `i32` and a name with no parenthesis in
  -- it, among entries that are no process, that cannot be read, or that are gone when they are read:
  -- the list has exactly those tasks, in that order, and a process counts as running exactly when one
  -- of them has its name, without the whitespace around it.
  pub process_list-tasks :
      (es : List (Option ProcEntry)) (ts : List Task) (name : Text)
      → Shows es ts
      → (process_list decode (some es) ≡ map info_of ts)
        × ((process_running (process_list decode (some es)) name ≡ true)
            ↔ Any (λ t. trim t.comm ≡ name) ts)
  unfolding process_list process_running
  process_list-tasks es ts name shows =
      rw (listed_tasks shows, any_info name ts) (refl, any_named name ts)
