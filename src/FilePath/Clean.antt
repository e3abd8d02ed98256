-- ===== src/FilePath/Clean.antt =====
-- Absolute paths of plain names, the prefix order on paths, and what the Boolean tests decide.
use zyris_docker.Prelude.{true, false, ◌≡◌, refl, ap, some, [], ◌∷◌, ◌++◌, arith, All, ◌==◌}
use zyris_docker.Prelude.Text.{Text, codes, text_eq, is_empty, text_eq_iff}
use zyris_docker.FilePath.Defs.{
  Component, root_dir, cur_dir, parent_dir, normal, FilePath, component_eq, path_eq,
  path_starts_with, split_last,
}

-- What a piece between slashes must be to name an entry of a directory.
pub record IsName (n : Text) : Type 0 where
  pub nonempty : is_empty n ≡ false
  pub not_dot : text_eq n (codes ".") ≡ false
  pub not_dotdot : text_eq n (codes "..") ≡ false
  pub no_slash : All (λ c. (c == b'/') ≡ false) n

abbrev pub AreNames : FilePath → Type 0
AreNames [] = Unit
AreNames (normal n ∷ p) = IsName n × AreNames p
AreNames (_ ∷ p) = ⊥

-- Absolute, with no `.` and no `..` left in it.
abbrev pub IsClean : FilePath → Type 0
IsClean (root_dir ∷ p) = AreNames p
IsClean _ = ⊥

pub AreNames-append : (p q : FilePath) → AreNames p → AreNames q → AreNames (p ++ q)
AreNames-append [] q hp hq = hq
AreNames-append (normal n ∷ p) q hp hq = (hp.0, AreNames-append p q hp.1 hq)
AreNames-append (root_dir ∷ p) q hp hq = absurd hp
AreNames-append (cur_dir ∷ p) q hp hq = absurd hp
AreNames-append (parent_dir ∷ p) q hp hq = absurd hp

pub IsClean-append : (p q : FilePath) → IsClean p → AreNames q → IsClean (p ++ q)
IsClean-append (root_dir ∷ p) q hp hq = AreNames-append p q hp hq
IsClean-append [] q hp hq = absurd hp
IsClean-append (normal n ∷ p) q hp hq = absurd hp
IsClean-append (cur_dir ∷ p) q hp hq = absurd hp
IsClean-append (parent_dir ∷ p) q hp hq = absurd hp

-- `base` is `path` or one of its ancestors, by whole components.
abbrev pub IsUnder : FilePath → FilePath → Type 0
IsUnder path base = (rest : FilePath) × (path ≡ base ++ rest)

component_eq_sound : (c d : Component) → component_eq c d ≡ true → c ≡ d
unfolding component_eq
component_eq_sound root_dir root_dir h = refl
component_eq_sound cur_dir cur_dir h = refl
component_eq_sound parent_dir parent_dir h = refl
component_eq_sound (normal a) (normal b) h = ap normal ((text_eq_iff a b).0 h)
component_eq_sound root_dir _ h = cc
component_eq_sound cur_dir _ h = cc
component_eq_sound parent_dir _ h = cc
component_eq_sound (normal a) _ h = cc

component_eq_refl : (c : Component) → component_eq c c ≡ true
unfolding component_eq
component_eq_refl root_dir = refl
component_eq_refl cur_dir = refl
component_eq_refl parent_dir = refl
component_eq_refl (normal a) = (text_eq_iff a a).1 refl

pub path_eq_sound : (p q : FilePath) → path_eq p q ≡ true → p ≡ q
unfolding path_eq
path_eq_sound [] [] h = refl
path_eq_sound [] (d ∷ q) h = cc
path_eq_sound (c ∷ p) [] h = cc
path_eq_sound (c ∷ p) (d ∷ q) h = ground (arith, component_eq_sound c d, path_eq_sound p q)

pub starts_with_sound : (p q : FilePath) → path_starts_with p q ≡ true → IsUnder p q
unfolding path_starts_with
starts_with_sound [] [] h = ([], refl)
starts_with_sound (c ∷ p) [] h = (c ∷ p, refl)
starts_with_sound [] (d ∷ q) h = cc
starts_with_sound (c ∷ p) (d ∷ q) h =
    let under : IsUnder p q = starts_with_sound p q (ground arith) in
    (under.0, ground (arith, component_eq_sound c d, under.1))

pub starts_with_whole : (q rest : FilePath) → path_starts_with (q ++ rest) q ≡ true
unfolding path_starts_with
starts_with_whole [] [] = refl
starts_with_whole [] (c ∷ rest) = refl
starts_with_whole (d ∷ q) rest = rw (component_eq_refl d) (starts_with_whole q rest)

pub starts_with_of_IsUnder : (p q : FilePath) → IsUnder p q → path_starts_with p q ≡ true
starts_with_of_IsUnder p q u = rw (u.1) (starts_with_whole q u.0)

-- Taking off the last component of a clean path gives a clean path, or fails at the root.
pub split_last-append : (p : FilePath) (c : Component) → split_last (p ++ c ∷ []) ≡ some (p, c)
unfolding split_last
split_last-append [] c = refl
split_last-append (d ∷ p) c = rw (split_last-append p c)

pub path_eq_refl : (p : FilePath) → path_eq p p ≡ true
unfolding path_eq
path_eq_refl [] = refl
path_eq_refl (c ∷ p) = rw (component_eq_refl c) (path_eq_refl p)
