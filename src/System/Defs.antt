-- ===== src/System/Defs.antt =====
-- The readers of /proc of src/system.rs, over the text that they read. Sums and products are those of
-- `u64` in a release build, which wrap around.
use zyris_docker.Prelude.{
  ℕ, ◌+◌, ◌*◌, ◌/◌, ◌%◌, ◌^◌, Bool, not, Option, none, some, List, [], ◌∷◌, ◌==◌, any, filterb,
  get_elem?, if◌then◌else◌,
}
use zyris_docker.Prelude.Int.{ℤ}
use zyris_docker.Prelude.Text.{
  lines, starts_with, Text, text_eq, is_whitespace, trim, is_empty, push_first,
}
use zyris_docker.Runtime.Config.{or_else}
use zyris_docker.Config.{parse_u64}

-- `str::split_once(c)`: around the first.
unfoldable pub split_once : ℕ → Text → Option (Text × Text)
split_once c [] = none
split_once c (d ∷ s) =
    let rest = split_once c s in
    if d == c then some ([], s) else elim rest [ none ↦ none | some (a, b) ↦ some (d ∷ a, b) ]

-- `str::rsplit_once(c)`: around the last.
unfoldable pub rsplit_once : ℕ → Text → Option (Text × Text)
rsplit_once c [] = none
rsplit_once c (d ∷ s) = elim (rsplit_once c s) [
  | some (a, b) ↦ some (d ∷ a, b)
  | none ↦ if d == c then some ([], s) else none
]

-- The pieces between the characters of a kind.
unfoldable pub split_on : (ℕ → Bool) → Text → List Text
split_on p [] = [] ∷ []
split_on p (c ∷ s) = let rest = split_on p s in if p c then [] ∷ rest else push_first c rest

-- `str::split_whitespace`
unfoldable pub split_whitespace : Text → List Text
unfolding split_on is_whitespace
split_whitespace s = filterb (λ piece. not (is_empty piece)) (split_on is_whitespace s)

pub record ProcessInfo : Type 0 where
  pub pid : ℤ
  pub name : Text
  pub state : Text
  pub rss_bytes : ℕ
  pub cpu_secs : ℕ
  pub cmdline : Text

abbrev parsed_or_zero : Option Text → ℕ
parsed_or_zero none = 0
parsed_or_zero (some s) = or_else (parse_u64 s) 0

-- `fields.get(i).and_then(|s| s.parse::<u64>().ok()).unwrap_or(0)`
unfoldable pub number_at : List Text → ℕ → ℕ
number_at fields i = parsed_or_zero (get_elem? fields i)

abbrev after_paren : Option (Text × Text) → Text
after_paren none = []
after_paren (some (a, b)) = trim b

-- The name: what is after the last `(` of what is before the first `)`.
unfoldable pub comm_of : Text → Text
unfolding rsplit_once
comm_of head = after_paren (rsplit_once b'(' head)

-- `parse_proc_stat`; the command line is the one that the same directory holds.
unfoldable pub parse_proc_stat : ℤ → Text → Text → Option ProcessInfo
unfolding split_once comm_of number_at
parse_proc_stat pid stat cmdline = elim (split_once b')' stat) [
  | none ↦ none
  | some (head, tail) ↦
      let fields = split_whitespace tail in
      some (record {
        pid = pid;
        name = comm_of head;
        state = or_else (get_elem? fields 0) [];
        rss_bytes = number_at fields 23 * 4096 % 2 ^ 64;
        cpu_secs =
            (number_at fields 14 + number_at fields 15 + number_at fields 16 + number_at fields 17)
            % 2 ^ 64
            / 100;
        cmdline = cmdline;
      })
]

-- `process_running`, over the list of `process_list`.
unfoldable pub process_running : List ProcessInfo → Text → Bool
process_running processes name = any (λ p. text_eq p.name name) processes

abbrev pub first_match : (Text → Bool) → List Text → Option Text
first_match p [] = none
first_match p (line ∷ rest) = if p line then some line else first_match p rest

abbrev kilobytes : Option Text → ℕ
kilobytes none = 0
kilobytes (some line) = parsed_or_zero (get_elem? (split_whitespace line) 1) * 1024 % 2 ^ 64

-- `meminfo_kb`, over the text of /proc/meminfo.
unfoldable pub meminfo_kb : Text → Text → ℕ
meminfo_kb meminfo name = kilobytes (first_match (λ line. starts_with line name) (lines meminfo))
