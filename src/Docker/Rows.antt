-- ===== src/Docker/Rows.antt =====
-- Which row decides whether a container runs.
use zyris_docker.Prelude.{◌≡◌, refl, ◌++◌, Option, none, some, List, [], ◌∷◌, Result, ok, All}
use zyris_docker.Prelude.Text.{lines, Text, codes, text_eq}
use zyris_docker.Json.{Value, get, as_str}
use zyris_docker.Runtime.Config.{or_else}
use zyris_docker.Docker.Defs.{
  container_of, parse_container_line, rows, info_arguments, container_info, container_running,
}

module _ (from_str : Text → Option Value) (run_docker : List Text → Result Text Text) where
  rows-skip :
      (junk rest : List Text)
      → All (λ line. parse_container_line from_str line ≡ none) junk
      → rows from_str (junk ++ rest) ≡ rows from_str rest
  rows-skip [] rest h = refl
  rows-skip (line ∷ junk) rest (e, h) = rw (e, rows) (rows-skip junk rest h)

  -- Whether a container runs is the state of the first row of the answer that is one, whatever other
  -- rows follow and whatever the name of the row is: it is not compared with the name asked for.
  pub container_running-first :
      (selector raw line names : Text) (junk more : List Text) (v : Value)
      → run_docker (info_arguments from_str run_docker selector) ≡ ok raw
      → lines raw ≡ junk ++ line ∷ more
      → All (λ other. parse_container_line from_str other ≡ none) junk
      → from_str line ≡ some v
      → as_str (get (codes "Names") (some v)) ≡ some names
      → container_running from_str run_docker selector
        ≡ text_eq (or_else (as_str (get (codes "State") (some v))) []) (codes "running")
  unfolding container_running container_info parse_container_line container_of
  container_running-first selector raw line names junk more v ran split_up skipped parsed named =
      rw (ran, split_up, rows-skip junk (line ∷ more) skipped) rw (rows, parsed, named) refl
