-- ===== src/Monitor/Logs.antt =====
-- The command line of `docker_logs`, as the docker program reads it.
use zyris_docker.Prelude.{
  ℕ, Bool, true, false, Option, none, some, List, [], ◌∷◌, ltb, if◌then◌else◌,
}
use zyris_docker.Prelude.Text.{Text, codes, text_eq, starts_with}
use zyris_docker.Config.{parse_u64}

-- The options of `docker logs` that are read, and the container: what begins with a dash is an option.
abbrev pub read_options : Option ℕ → Bool → List Text → Option (Option ℕ × Bool × Text)
read_options tail follow [] = none
read_options tail follow (word ∷ []) =
    if starts_with word (codes "-") then none else some (tail, follow, word)
read_options tail follow (word ∷ next ∷ rest) =
    let after_tail = read_options (parse_u64 next) follow rest in
    let after_follow = read_options tail true (next ∷ rest) in
    if text_eq word (codes "--tail")
    then after_tail
    else if text_eq word (codes "--follow")
    then after_follow
    else none

abbrev pub read_logs : List Text → Option (Option ℕ × Bool × Text)
read_logs [] = none
read_logs (word ∷ rest) = if text_eq word (codes "logs") then read_options none false rest else none

-- As many lines as were asked for; of 0, all of them.
abbrev pub lines_asked : ℕ → Option ℕ
lines_asked tail = if ltb 0 tail then some tail else none
