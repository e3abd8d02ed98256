-- ===== src/Gate/Defs.antt =====
-- `PathGate` and the helpers of src/gate.rs.
use zyris_docker.Prelude.{
  Bool, ◌||◌, Option, none, some, List, [], ◌∷◌, ◌++◌, map, reverse, any, if◌then◌else◌, Result, ok,
  err,
}
use zyris_docker.Prelude.Text.{Text, codes, join_with}
use zyris_docker.FilePath.{
  Component, root_dir, cur_dir, parent_dir, normal, FilePath, path_eq, path_starts_with, has_root,
  pop, push, components,
}
use zyris_docker.FilePath.Display.{display}
use zyris_docker.Wire.{WireError, forbidden_scope}

pub record PathGate : Type 0 where
  pub roots : List FilePath
  pub deny : List FilePath

-- `is_under`
unfoldable pub is_under : FilePath → FilePath → Bool
is_under path base = path_eq path base || path_starts_with path base

-- One turn of the loop of `join_like_upstream`. `out` is left as it is where `pop` answers `false`.
unfoldable pub join_component : FilePath → Component → FilePath
join_component out root_dir = push out root_dir
join_component out cur_dir = out
join_component out parent_dir = elim (pop out) [
  | some shorter ↦ shorter
  | none ↦ if has_root out then out else push out parent_dir
]
join_component out (normal part) = push out (normal part)

unfoldable pub join_components : FilePath → List Component → FilePath
unfolding join_component
join_components out [] = out
join_components out (c ∷ cs) = join_components (join_component out c) cs

unfoldable pub join_like_upstream : FilePath → Text → FilePath
unfolding join_components
join_like_upstream root path =
    let requested = components path in
    join_components (if has_root requested then [] else root) requested

-- `PathGate::root`
unfoldable pub gate_root : PathGate → FilePath
gate_root gate = elim gate.roots [ [] ↦ root_dir ∷ [] | root ∷ _ ↦ root ]

abbrev or_self : Option FilePath → FilePath → FilePath
or_self none path = path
or_self (some real) path = real

-- `PathGate::refuse`
unfoldable pub refuse : PathGate → Text → Text → WireError
refuse gate requested why = record {
  code = forbidden_scope;
  message =
      requested
      ++ codes ": "
      ++ why
      ++ codes ". Paths this node allows: "
      ++ join_with (codes ", ") (map display gate.roots);
}

-- What the file system makes of a path.
module _ (canonicalize : FilePath → Option FilePath) where
  -- `PathGate::new`
  unfoldable pub new_gate : List FilePath → List FilePath → PathGate
  new_gate roots deny = record { roots = map canon roots; deny = map canon deny }
    where
      canon : FilePath → FilePath
      canon path = or_self (canonicalize path) path

  -- The loop of `canonicalize_deepest`. The ancestor under test is kept last component first, so
  -- that `pop` takes off its head; `tail` holds the names taken off, in the order of the path.
  unfoldable pub deepest : FilePath → List Component → FilePath → FilePath
  deepest path [] tail = elim (canonicalize []) [ some real ↦ real ++ tail | none ↦ path ]
  deepest path (c ∷ rest) tail = elim (canonicalize (reverse (c ∷ rest))) [
    | some real ↦ real ++ tail
    | none ↦ elim c [ normal name ↦ deepest path rest (normal name ∷ tail) | _ ↦ path ]
  ]

  unfoldable pub canonicalize_deepest : FilePath → FilePath
  unfolding deepest
  canonicalize_deepest path = deepest path (reverse path) []

  -- `PathGate::check`
  unfoldable pub check : PathGate → Text → Result WireError FilePath
  check gate requested =
      let resolved = canonicalize_deepest (join_like_upstream (gate_root gate) requested) in
      if any (is_under resolved) gate.deny
      then err (refuse gate requested (codes "is on the deny list"))
      else if any (is_under resolved) gate.roots
      then ok resolved
      else err (refuse gate requested (codes "is outside the allowed roots"))
