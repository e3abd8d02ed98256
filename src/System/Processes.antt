-- ===== src/System/Processes.antt =====
-- `process_list` of src/system.rs, over what the entries of /proc answer when they are read.
-- mod Tasks
use zyris_docker.Prelude.{
  ℕ, ◌^◌, zero, suc, not, Option, none, some, List, [], ◌∷◌, ltb, ◌==◌, map, filterb, if◌then◌else◌,
}
use zyris_docker.Prelude.Int.{ℤ, pos, negsuc}
use zyris_docker.Prelude.Text.{Text, codes, is_empty, join_with}
use zyris_docker.Config.{parse_u64, digits_value}
use zyris_docker.System.Defs.{split_on, ProcessInfo, parse_proc_stat}

abbrev below_i32 : Option ℕ → Option ℤ
below_i32 none = none
below_i32 (some v) = if ltb v (2 ^ 31) then some (pos v) else none

abbrev negated : Option ℕ → Option ℤ
negated none = none
negated (some zero) = some (pos 0)
negated (some (suc n)) = if ltb n (2 ^ 31) then some (negsuc n) else none

-- `str::parse::<i32>()`
unfoldable pub parse_i32 : Text → Option ℤ
unfolding parse_u64 digits_value
parse_i32 [] = none
parse_i32 (c ∷ s) =
    if c == b'-'
    then (if is_empty s then none else negated (digits_value 0 s))
    else below_i32 (parse_u64 (c ∷ s))

-- An entry of /proc: the name, and the contents of `stat` and `cmdline` under it; `none` is an error.
pub record ProcEntry : Type 0 where
  pub file_name : Text
  pub stat : Option Text
  pub cmdline : Option (List ℕ)

module _ (decode : List ℕ → Text) where
  abbrev cmdline_bytes : Option (List ℕ) → Text
  cmdline_bytes none = []
  cmdline_bytes (some bytes) =
      join_with (codes " ")
        (map decode (filterb (λ s. not (is_empty s)) (split_on (λ b. b == 0) bytes)))

  -- The command line of `parse_proc_stat`; `decode` is `String::from_utf8_lossy`.
  unfoldable pub cmdline_of : Option (List ℕ) → Text
  unfolding split_on
  cmdline_of read = cmdline_bytes read

  abbrev pub of_stat : ProcEntry → Option ℤ → Option Text → Option ProcessInfo
  of_stat entry none stat = none
  of_stat entry (some pid) none = none
  of_stat entry (some pid) (some stat) = parse_proc_stat pid stat (cmdline_of entry.cmdline)

  abbrev pub of_entry : Option ProcEntry → Option ProcessInfo
  of_entry none = none
  of_entry (some entry) = of_stat entry (parse_i32 entry.file_name) entry.stat

  abbrev pub collected : Option ProcessInfo → List ProcessInfo → List ProcessInfo
  collected none rest = rest
  collected (some p) rest = p ∷ rest

  abbrev pub listed : List (Option ProcEntry) → List ProcessInfo
  listed [] = []
  listed (entry ∷ entries) = collected (of_entry entry) (listed entries)

  -- `process_list`: the answer to `read_dir("/proc")`, its entries in turn.
  unfoldable pub process_list : Option (List (Option ProcEntry)) → List ProcessInfo
  unfolding parse_i32 cmdline_of
  process_list none = []
  process_list (some entries) = listed entries
