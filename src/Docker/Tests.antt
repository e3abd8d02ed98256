-- ===== src/Docker/Tests.antt =====
-- An answer of `docker ps` to `name=db`, whose first row is another container's.
use zyris_docker.Prelude.{
  ◌≡◌, refl, true, Option, none, some, List, [], ◌∷◌, Result, ok, if◌then◌else◌,
}
use zyris_docker.Prelude.Text.{lines, Text, codes, text_eq, split, is_empty}
use zyris_docker.Runtime.Config.{or_else}
use zyris_docker.Json.{Value, string, object, next_entry, empty_object, lookup, get, as_str}
use zyris_docker.Docker.Defs.{parse_container_line, container_of, container_info, container_running}
use zyris_docker.Docker.Rows.{container_running-first}

abbrev row_json : Text → Text → Value
row_json name state = object (
    next_entry (codes "Names") (string name)
      (next_entry (codes "State") (string state) empty_object))

-- A parser that knows two lines.
abbrev from_str : Text → Option Value
from_str line =
    if text_eq line (codes "1")
    then some (row_json (codes "db-backup") (codes "running"))
    else if text_eq line (codes "2")
    then some (row_json (codes "db") (codes "exited"))
    else none

abbrev run_docker : List Text → Result Text Text
run_docker arguments = ok (codes "1\n2\n")

two_lines : lines (codes "1\n2\n") ≡ codes "1" ∷ codes "2" ∷ []
unfolding lines split is_empty
two_lines = refl

-- The stopped `db` is said to run.
other_container_counts : container_running from_str run_docker (codes "db") ≡ true
unfolding container_running container_info parse_container_line container_of lines split text_eq
    lookup is_empty
other_container_counts = refl

container_running-first_example :
    container_running from_str run_docker (codes "db")
    ≡ text_eq
        (or_else
          (as_str (get (codes "State") (some (row_json (codes "db-backup") (codes "running")))))
          [])
        (codes "running")
unfolding text_eq lookup
container_running-first_example =
    container_running-first from_str run_docker (codes "db") (codes "1\n2\n") (codes "1")
      (codes "db-backup") [] (codes "2" ∷ []) (row_json (codes "db-backup") (codes "running")) refl
      two_lines tt refl refl
