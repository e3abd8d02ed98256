-- ===== src/System/Memory.antt =====
-- What `meminfo_kb` reads of /proc/meminfo.
use zyris_docker.Prelude.{
  ℕ, ◌*◌, ◌^◌, ◌<◌, ◌≡◌, refl, append_assoc, Bool, true, false, some, List, [], ◌∷◌, ◌++◌, All,
  arith,
}
use zyris_docker.Prelude.Text.{
  Text, codes, lines, starts_with, starts_with_append, join_with, is_empty, is_whitespace,
}
use zyris_docker.Runtime.Store.{decimal}
use zyris_docker.Config.Numbers.{parse_u64-decimal, decimal_clear}
use zyris_docker.System.Defs.{first_match, meminfo_kb}
use zyris_docker.System.Stat.{IsField, split_whitespace-spaced, spaced}

abbrev pub meminfo_line : Text → ℕ → Text
meminfo_line name n = spaced (name ∷ decimal n ∷ codes "kB" ∷ [])

first_match-skip :
    (p : Text → Bool) (before rest : List Text) (line : Text)
    → All (λ other. p other ≡ false) before
    → p line ≡ true
    → first_match p (before ++ line ∷ rest) ≡ some line
first_match-skip p [] rest line h found = rw found refl
first_match-skip p (other ∷ before) rest line (e, h) found =
    rw e (first_match-skip p before rest line h found)

unit-IsField : IsField (codes "kB")
unfolding is_whitespace is_empty
unit-IsField = (refl, (refl, (refl, tt)))

line-starts : (name : Text) (n : ℕ) → starts_with (meminfo_line name n) name ≡ true
unfolding join_with
line-starts name n =
    rw (append_assoc name (codes " ") (spaced (decimal n ∷ codes "kB" ∷ [])))
      (starts_with_append name (codes " " ++ spaced (decimal n ∷ codes "kB" ∷ [])))

-- The value of a key is the number of kilobytes on the first line that begins with the key, in bytes.
pub meminfo_kb-line :
    (meminfo name : Text) (n : ℕ) (before rest : List Text)
    → lines meminfo ≡ before ++ meminfo_line name n ∷ rest
    → All (λ other. starts_with other name ≡ false) before
    → IsField name
    → n < 10 ^ 10
    → meminfo_kb meminfo name ≡ n * 1024
unfolding meminfo_kb
meminfo_kb-line meminfo name n before rest split_up skipped field small =
    let found =
      first_match-skip (λ line. starts_with line name) before rest (meminfo_line name n) skipped
        (line-starts name n) in
    let words =
      split_whitespace-spaced (name ∷ decimal n ∷ codes "kB" ∷ [])
        (field, (decimal_clear n, (unit-IsField, tt))) in
    rw (meminfo_kb, split_up, found) rw (words, parse_u64-decimal n small) omega arith
