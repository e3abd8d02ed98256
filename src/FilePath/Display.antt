-- ===== src/FilePath/Display.antt =====
-- A clean path written out and read back is the same path.
use zyris_docker.Prelude.{
  false, ◌≡◌, refl, ap, ◌∙◌, some, List, [], ◌∷◌, ◌++◌, arith, All, ◌==◌, Bool-cases, Option-cases,
  ℕ, inl, inr,
}
use zyris_docker.Prelude.Text.{Text, codes, text_eq, is_empty, split, push_first}
use zyris_docker.FilePath.Defs.{
  Component, root_dir, cur_dir, parent_dir, normal, FilePath, components, piece_component,
  piece_components, with_start,
}
use zyris_docker.FilePath.Clean.{IsName, AreNames, IsClean}

-- `Component::as_os_str`
unfoldable pub component_text : Component → Text
component_text root_dir = codes "/"
component_text cur_dir = codes "."
component_text parent_dir = codes ".."
component_text (normal n) = n

unfoldable pub join : FilePath → Text
unfolding component_text
join [] = []
join (c ∷ []) = component_text c
join (c ∷ d ∷ p) = component_text c ++ b'/' ∷ join (d ∷ p)

-- `Path::display`, and `to_string_lossy` of a path of valid text.
unfoldable pub display : FilePath → Text
unfolding join
display (root_dir ∷ p) = b'/' ∷ join p
display p = join p

pub split_whole : (n : Text) → All (λ c. (c == b'/') ≡ false) n → split b'/' n ≡ n ∷ []
unfolding split
split_whole [] h = refl
split_whole (c ∷ n) h = rw (h.0, split_whole n h.1)

split_slash :
    (n s : Text) → All (λ c. (c == b'/') ≡ false) n → split b'/' (n ++ b'/' ∷ s) ≡ n ∷ split b'/' s
unfolding split
split_slash [] s h = refl
split_slash (c ∷ n) s h = rw (h.0, split_slash n s h.1)

split-cons : (s : Text) → (piece : Text) × (pieces : List Text) × (split b'/' s ≡ piece ∷ pieces)
unfolding split
split-cons [] = ([], [], refl)
split-cons (c ∷ s) =
    let (piece, pieces, e) = split-cons s in
    elim (Bool-cases (c == b'/')) [
      | inl h ↦ ([], piece ∷ pieces, rw (h, e))
      | inr h ↦ (c ∷ piece, pieces, rw (h, e))
    ]

pieces_name :
    (n : Text) (pieces : List Text)
    → IsName n
    → piece_components (n ∷ pieces) ≡ normal n ∷ piece_components pieces
unfolding piece_components piece_component
pieces_name n pieces h = ground (arith, h.nonempty, h.not_dot, h.not_dotdot)

pieces_join : (p : FilePath) → AreNames p → piece_components (split b'/' (join p)) ≡ p
unfolding join
pieces_join [] h = unfold split piece_components piece_component is_empty in refl
pieces_join (normal n ∷ []) h =
    rw (split_whole n h.0.no_slash, pieces_name n [] h.0) (unfold piece_components in refl)
pieces_join (normal n ∷ c ∷ p) h =
    rw (split_slash n (join (c ∷ p)) h.0.no_slash, pieces_name n _ h.0)
      (ap (◌∷◌ (normal n)) (pieces_join (c ∷ p) h.1))
pieces_join (root_dir ∷ p) h = absurd h
pieces_join (cur_dir ∷ p) h = absurd h
pieces_join (parent_dir ∷ p) h = absurd h

components_slash : (s : Text) → components (b'/' ∷ s) ≡ root_dir ∷ piece_components (split b'/' s)
unfolding components is_empty
components_slash s = ground (arith, split-cons s)

-- The text that a clean path is displayed as denotes that path.
pub components-display : (p : FilePath) → IsClean p → components (display p) ≡ p
unfolding display
components-display (root_dir ∷ p) h =
    components_slash (join p) ∙ ap (◌∷◌ root_dir) (pieces_join p h)
components-display [] h = absurd h
components-display (normal n ∷ p) h = absurd h
components-display (cur_dir ∷ p) h = absurd h
components-display (parent_dir ∷ p) h = absurd h

-- What the components of a request can be.
abbrev pub IsPart : Component → Type 0
IsPart (normal n) = IsName n
IsPart _ = Unit

NoSlash-push_first :
    (c : ℕ) (pieces : List Text)
    → (c == b'/') ≡ false
    → All (All (λ d. (d == b'/') ≡ false)) pieces
    → All (All (λ d. (d == b'/') ≡ false)) (push_first c pieces)
NoSlash-push_first c [] e h = ((e, tt), tt)
NoSlash-push_first c (piece ∷ pieces) e h = ((e, h.0), h.1)

split-NoSlash : (s : Text) → All (All (λ d. (d == b'/') ≡ false)) (split b'/' s)
unfolding split
split-NoSlash [] = (tt, tt)
split-NoSlash (c ∷ s) = elim (Bool-cases (c == b'/')) [
  | inl e ↦ rw e (tt, split-NoSlash s)
  | inr e ↦ rw e (NoSlash-push_first c (split b'/' s) e (split-NoSlash s))
]

piece_facts :
    (piece n : Text)
    → piece_component piece ≡ some (normal n)
    → (piece ≡ n)
      × (is_empty piece ≡ false)
      × (text_eq piece (codes ".") ≡ false)
      × (text_eq piece (codes "..") ≡ false)
unfolding piece_component
piece_facts piece n e = ground arith

piece-IsPart :
    (piece : Text) (c : Component)
    → All (λ d. (d == b'/') ≡ false) piece
    → piece_component piece ≡ some c
    → IsPart c
piece-IsPart piece (normal n) h e =
    let f = piece_facts piece n e in
    rw (← f.0) (record { nonempty = f.1; not_dot = f.2; not_dotdot = f.3; no_slash = h })
piece-IsPart piece root_dir h e = tt
piece-IsPart piece cur_dir h e = tt
piece-IsPart piece parent_dir h e = tt

piece_components-IsPart :
    (pieces : List Text)
    → All (All (λ d. (d == b'/') ≡ false)) pieces
    → All IsPart (piece_components pieces)
unfolding piece_components piece_component
piece_components-IsPart [] h = tt
piece_components-IsPart (piece ∷ pieces) h = elim (Option-cases (piece_component piece)) [
  | inl e ↦ rw (e, piece_components) (piece_components-IsPart pieces h.1)
  | inr (c, e) ↦
      rw (e, piece_components) (piece-IsPart piece c h.0 e, piece_components-IsPart pieces h.1)
]

start-IsPart : (pieces : List Text) (p : FilePath) → All IsPart p → All IsPart (with_start pieces p)
start-IsPart [] p h = h
start-IsPart (piece ∷ []) p h = elim (Bool-cases (text_eq piece (codes "."))) [
  | inl e ↦ rw e (tt, h)
  | inr e ↦ rw e h
]
start-IsPart (piece ∷ _ ∷ _) p h = elim (Bool-cases (is_empty piece)) [
  | inl a ↦ rw a (tt, h)
  | inr a ↦ elim (Bool-cases (text_eq piece (codes "."))) [
    | inl e ↦ rw (a, e) (tt, h)
    | inr e ↦ rw (a, e) h
  ]
]

-- Every name among the components of a text names an entry of a directory.
pub components-IsPart : (t : Text) → All IsPart (components t)
unfolding components
components-IsPart t =
    start-IsPart (split b'/' t) _ (piece_components-IsPart (split b'/' t) (split-NoSlash t))
