-- ===== src/Docker/Defs.antt =====
-- The rows of `docker ps` of src/docker.rs. The CLI is what it prints for its arguments, or an error.
use mathlib.Core.Option
use zyris_docker.Prelude.{
  Bool, false, Option, none, some, List, [], ◌∷◌, ◌++◌, Result, ok, err, ◌>>=◌,
}
use zyris_docker.Prelude.Text.{lines, Text, codes, text_eq, split}
use zyris_docker.Runtime.Config.{or_else}
use zyris_docker.Json.{Value, get, as_str}

pub record ContainerInfo : Type 0 where
  pub id : Text
  pub name : Text
  pub image : Text
  pub state : Text
  pub running : Bool
  pub status : Text

abbrev head_piece : List Text → Text
head_piece [] = []
head_piece (piece ∷ pieces) = piece

-- The row, once its `Names` are known.
unfoldable pub container_of : Value → Text → ContainerInfo
container_of v names =
    let state = or_else (as_str (get (codes "State") (some v))) [] in
    record {
      id = or_else (as_str (get (codes "ID") (some v))) [];
      name = head_piece (split b',' names);
      image = or_else (as_str (get (codes "Image") (some v))) [];
      state = state;
      running = text_eq state (codes "running");
      status = or_else (as_str (get (codes "Status") (some v))) [];
    }

abbrev row_of : Option Value → Option ContainerInfo
row_of none = none
row_of (some v) = Option.map (container_of v) (as_str (get (codes "Names") (some v)))

module _ (from_str : Text → Option Value) where
  -- `parse_container_line`
  unfoldable pub parse_container_line : Text → Option ContainerInfo
  parse_container_line line = row_of (from_str line)

  abbrev pub rows : List Text → List ContainerInfo
  rows [] = []
  rows (line ∷ rest) = elim (parse_container_line line) [
    | some c ↦ c ∷ rows rest
    | none ↦ rows rest
  ]

  abbrev pub first_row : Text → List ContainerInfo → Result Text ContainerInfo
  first_row selector [] = err (codes "no container " ++ selector)
  first_row selector (c ∷ cs) = ok c

  module _ (run_docker : List Text → Result Text Text) where
    -- `list_containers`
    unfoldable pub list_containers : Result Text (List ContainerInfo)
    unfolding parse_container_line lines
    list_containers = do
      raw ← run_docker (
          codes "ps" ∷ codes "-a" ∷ codes "--no-trunc" ∷ codes "--format" ∷ codes "{{json .}}" ∷ [])
      ok (rows (lines raw))

    abbrev pub info_arguments : Text → List Text
    info_arguments selector =
        codes "ps"
        ∷ codes "-a"
        ∷ codes "--no-trunc"
        ∷ codes "--filter"
        ∷ (codes "name=" ++ selector)
        ∷ codes "--format"
        ∷ codes "{{json .}}"
        ∷ []

    -- `container_info`
    unfoldable pub container_info : Text → Result Text ContainerInfo
    unfolding parse_container_line lines
    container_info selector = do
      raw ← run_docker (info_arguments selector)
      first_row selector (rows (lines raw))

    abbrev is_running : Result Text ContainerInfo → Bool
    is_running (ok c) = c.running
    is_running (err e) = false

    -- `container_running`
    unfoldable pub container_running : Text → Bool
    unfolding container_info
    container_running selector = is_running (container_info selector)
