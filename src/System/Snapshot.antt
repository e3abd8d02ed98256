-- ===== src/System/Snapshot.antt =====
-- `system_snapshot` of src/system.rs, over the files of /proc and the answer to `statvfs`. Floats are
-- a type with the operations that the program uses of them.
use zyris_docker.Prelude.{
  ℕ, ◌+◌, ◌-◌, ◌*◌, ◌%◌, ◌^◌, Option, none, some, List, [], ◌∷◌, take, get_elem?, length,
  if◌then◌else◌,
}
use zyris_docker.Prelude.Text.{Text, codes, text_eq, trim, lines}
use zyris_docker.Runtime.Config.{or_else}
use zyris_docker.Config.{parse_u64}
use zyris_docker.System.Defs.{split_whitespace, meminfo_kb}
use zyris_docker.System.Processes.{ProcEntry, process_list}

-- `f32`: conversion from a `u64`, sums, quotients, products, maxima, and `str::parse`.
pub record F32 : Type 1 where
  pub F : Type 0
  pub of_u64 : ℕ → F
  pub add : F → F → F
  pub div : F → F → F
  pub mul : F → F → F
  pub max : F → F → F
  pub parse : Text → Option F

-- `read_file`: an error reads as the empty text.
abbrev pub read_file : Option Text → Text
read_file read = or_else read []

pub record CpuTimes : Type 0 where
  pub user : ℕ
  pub nice : ℕ
  pub system : ℕ
  pub idle : ℕ

abbrev parsed_all : List Text → List ℕ
parsed_all [] = []
parsed_all (word ∷ words) = elim (parse_u64 word) [
  | none ↦ parsed_all words
  | some v ↦ v ∷ parsed_all words
]

abbrev four_of : List ℕ → CpuTimes → CpuTimes
four_of (u ∷ n ∷ s ∷ i ∷ rest) totals = record { user = u; nice = n; system = s; idle = i }
four_of _ totals = totals

abbrev pub line_times : List Text → CpuTimes → CpuTimes
line_times [] totals = totals
line_times (word ∷ words) totals =
    if text_eq word (codes "cpu") then four_of (parsed_all (take 8 words)) totals else totals

abbrev pub times_of : List Text → CpuTimes → CpuTimes
times_of [] totals = totals
times_of (line ∷ rest) totals = times_of rest (line_times (split_whitespace line) totals)

-- `cpu_times`, over the text of /proc/stat: the last line `cpu` with four numbers.
unfoldable pub cpu_times : Text → CpuTimes
cpu_times stat = times_of (lines stat) (record { user = 0; nice = 0; system = 0; idle = 0 })

-- The sum of `u64`s wraps around.
unfoldable pub busy : CpuTimes → ℕ
busy t = (t.user + t.nice + t.system) % 2 ^ 64

module _ (f32 : F32) where
  open f32 use {F, of_u64, add, div, mul, max, parse}

  -- `cpu_percent`, over /proc/stat before and after the sleep; the differences stop at zero.
  unfoldable pub cpu_percent : Text → Text → F
  unfolding cpu_times busy
  cpu_percent before after =
      let t1 = cpu_times before in
      let t2 = cpu_times after in
      let d_busy = of_u64 (busy t2 - busy t1) in
      let d_total = max (add d_busy (of_u64 (t2.idle - t1.idle))) (of_u64 1) in
      mul (div d_busy d_total) (of_u64 100)

  abbrev parsed_load : Option Text → F
  parsed_load none = of_u64 0
  parsed_load (some field) = or_else (parse field) (of_u64 0)

  -- `load_avg`
  unfoldable pub load_avg : Text → F × F × F
  load_avg raw =
      let fields = split_whitespace raw in
      (
        parsed_load (get_elem? fields 0),
        parsed_load (get_elem? fields 1),
        parsed_load (get_elem? fields 2),
      )

-- `statvfs("/")`, where it succeeds.
pub record Statvfs : Type 0 where
  pub f_bsize : ℕ
  pub f_blocks : ℕ
  pub f_bfree : ℕ

-- `disk_usage`: total and used, in `u64`s that wrap around.
unfoldable pub disk_usage : Option Statvfs → ℕ × ℕ
disk_usage none = (0, 0)
disk_usage (some s) =
    let total = s.f_blocks * s.f_bsize % 2 ^ 64 in
    let free = s.f_bfree * s.f_bsize % 2 ^ 64 in (total, total - free)

abbrev seconds_of : (Text → Option ℕ) → Option Text → ℕ
seconds_of whole_secs none = 0
seconds_of whole_secs (some field) = or_else (whole_secs field) 0

-- `uptime_secs`; `whole_secs` is `parse::<f64>()` and the cast to `u64`.
unfoldable pub uptime_secs : (Text → Option ℕ) → Text → ℕ
uptime_secs whole_secs raw = seconds_of whole_secs (get_elem? (split_whitespace raw) 0)

-- What the system answers in the course of a snapshot. /proc/stat is read twice, and /proc/meminfo
-- once for each of its four values, so the four may be of different moments.
pub record ProcFiles : Type 0 where
  pub hostname : Option Text
  pub stat_before : Option Text
  pub stat_after : Option Text
  pub meminfo_total : Option Text
  pub meminfo_available : Option Text
  pub meminfo_swap_total : Option Text
  pub meminfo_swap_free : Option Text
  pub loadavg : Option Text
  pub uptime : Option Text
  pub statvfs : Option Statvfs
  pub entries : Option (List (Option ProcEntry))

module _ (f32 : F32) where
  -- `SystemSnapshot`
  pub record SystemSnapshot : Type 0 where
    pub hostname : Text
    pub uptime_secs : ℕ
    pub cpu_percent : f32.F
    pub load_avg : f32.F × f32.F × f32.F
    pub mem_total_bytes : ℕ
    pub mem_used_bytes : ℕ
    pub mem_available_bytes : ℕ
    pub swap_total_bytes : ℕ
    pub swap_used_bytes : ℕ
    pub process_count : ℕ
    pub disk_total_bytes : ℕ
    pub disk_used_bytes : ℕ

  -- `system_snapshot`; the differences stop at zero.
  unfoldable pub system_snapshot : (Text → Option ℕ) → (List ℕ → Text) → ProcFiles → SystemSnapshot
  unfolding meminfo_kb disk_usage
  system_snapshot whole_secs decode files =
      let mem_total = meminfo_kb (read_file files.meminfo_total) (codes "MemTotal:") in
      let mem_avail = meminfo_kb (read_file files.meminfo_available) (codes "MemAvailable:") in
      let swap_total = meminfo_kb (read_file files.meminfo_swap_total) (codes "SwapTotal:") in
      let swap_free = meminfo_kb (read_file files.meminfo_swap_free) (codes "SwapFree:") in
      let (disk_total, disk_used) = disk_usage files.statvfs in
      record {
        hostname = trim (read_file files.hostname);
        uptime_secs = uptime_secs whole_secs (read_file files.uptime);
        cpu_percent = cpu_percent f32 (read_file files.stat_before) (read_file files.stat_after);
        load_avg = load_avg f32 (read_file files.loadavg);
        mem_total_bytes = mem_total;
        mem_used_bytes = mem_total - mem_avail;
        mem_available_bytes = mem_avail;
        swap_total_bytes = swap_total;
        swap_used_bytes = swap_total - swap_free;
        process_count = length (process_list decode files.entries);
        disk_total_bytes = disk_total;
        disk_used_bytes = disk_used;
      }
