-- ===== src/FilePath/Defs.antt =====
-- The path operations of `std::path` that the gate and the store call.
use zyris_docker.Prelude.{
  Bool, true, false, Option, none, some, List, [], ◌∷◌, ◌++◌, ◌||◌, ◌&&◌, if◌then◌else◌,
}
use zyris_docker.Prelude.Text.{Text, codes, text_eq, split, is_empty}

pub data Component : Type 0 where
  root_dir cur_dir parent_dir : Component
  normal : Text → Component

abbrev pub FilePath : Type 0
FilePath = List Component

unfoldable pub component_eq : Component → Component → Bool
component_eq root_dir root_dir = true
component_eq cur_dir cur_dir = true
component_eq parent_dir parent_dir = true
component_eq (normal a) (normal b) = text_eq a b
component_eq _ _ = false

-- `Path == Path`
unfoldable pub path_eq : FilePath → FilePath → Bool
path_eq [] [] = true
path_eq (c ∷ p) (d ∷ q) = component_eq c d && path_eq p q
path_eq _ _ = false

-- `Path::starts_with`
unfoldable pub path_starts_with : FilePath → FilePath → Bool
path_starts_with p [] = true
path_starts_with [] (d ∷ q) = false
path_starts_with (c ∷ p) (d ∷ q) = component_eq c d && path_starts_with p q

unfoldable pub has_root : FilePath → Bool
has_root (root_dir ∷ p) = true
has_root _ = false

-- The last component and what stands before it.
unfoldable pub split_last : FilePath → Option (FilePath × Component)
split_last [] = none
split_last (c ∷ p) = elim (split_last p) [ none ↦ some ([], c) | some (q, d) ↦ some (c ∷ q, d) ]

-- `PathBuf::pop`: `none` where it answers `false` and leaves the path as it is.
unfoldable pub pop : FilePath → Option FilePath
unfolding split_last
pop p = elim (split_last p) [ none ↦ none | some (q, root_dir) ↦ none | some (q, c) ↦ some q ]

-- `Path::file_name`
unfoldable pub file_name : FilePath → Option Text
unfolding split_last
file_name p = elim (split_last p) [
  | none ↦ none
  | some (q, normal name) ↦ some name
  | some (q, c) ↦ none
]

-- `PathBuf::push` of one component.
unfoldable pub push : FilePath → Component → FilePath
push p root_dir = root_dir ∷ []
push p c = p ++ c ∷ []

-- A piece between two slashes; an empty piece and `.` are no components.
unfoldable pub piece_component : Text → Option Component
piece_component piece =
    if is_empty piece || text_eq piece (codes ".")
    then none
    else if text_eq piece (codes "..")
    then some parent_dir
    else some (normal piece)

unfoldable pub piece_components : List Text → FilePath
unfolding piece_component
piece_components [] = []
piece_components (piece ∷ pieces) = elim (piece_component piece) [
  | none ↦ piece_components pieces
  | some c ↦ c ∷ piece_components pieces
]

-- A leading `/` gives the root, and a leading `.` of a path with no root is kept.
abbrev pub with_start : List Text → FilePath → FilePath
with_start [] p = p
with_start (piece ∷ []) p = if text_eq piece (codes ".") then cur_dir ∷ p else p
with_start (piece ∷ _) p =
    if is_empty piece then root_dir ∷ p else if text_eq piece (codes ".") then cur_dir ∷ p else p

-- `Path::new(text).components()`
unfoldable pub components : Text → FilePath
unfolding piece_components split text_eq is_empty
components t = with_start (split b'/' t) (piece_components (split b'/' t))
