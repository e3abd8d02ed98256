-- ===== src/Gate/Join.antt =====
-- `join_like_upstream`: what it makes of `..`, and that it reads back a clean path unchanged.
use zyris_docker.Prelude.{
  true, false, ◌≡◌, refl, ◌∙◌, ◌⊎◌, inl, inr, none, some, List, [], ◌∷◌, ◌++◌, All, append_assoc,
  append-nil, Bool-cases,
}
use zyris_docker.Prelude.Text.{Text}
use zyris_docker.FilePath.{
  Component, root_dir, cur_dir, parent_dir, normal, FilePath, has_root, split_last, pop, push,
  components,
}
use zyris_docker.FilePath.Clean.{AreNames, IsClean, AreNames-append}
use zyris_docker.FilePath.Display.{display, components-display, IsPart, components-IsPart}
use zyris_docker.Gate.Defs.{join_component, join_components, join_like_upstream}

-- The last component of a list of names.
split_last-AreNames :
    (p : FilePath)
    → AreNames p
    → ((p ≡ []) × (split_last p ≡ none))
      ⊎ ((q : FilePath) × (n : Text) × (split_last p ≡ some (q, normal n)) × AreNames q)
unfolding split_last
split_last-AreNames [] h = inl (refl, refl)
split_last-AreNames (normal n ∷ p) h = elim (split_last-AreNames p h.1) [
  | inl (e, f) ↦ inr ([], n, rw f, tt)
  | inr (q, m, f, hq) ↦ inr (normal n ∷ q, m, rw f, (h.0, hq))
]
split_last-AreNames (root_dir ∷ p) h = absurd h
split_last-AreNames (cur_dir ∷ p) h = absurd h
split_last-AreNames (parent_dir ∷ p) h = absurd h

-- Below the root `pop` takes off a name, and at the root it fails.
pop-AreNames :
    (p : FilePath)
    → AreNames p
    → ((pop (root_dir ∷ p) ≡ none) × (p ≡ []))
      ⊎ ((q : FilePath) × (pop (root_dir ∷ p) ≡ some (root_dir ∷ q)) × AreNames q)
unfolding pop split_last
pop-AreNames p h = elim (split_last-AreNames p h) [
  | inl (e, f) ↦ inl (rw (f, pop, split_last), e)
  | inr (q, n, f, hq) ↦ inr (q, rw (f, pop, split_last), hq)
]

parent-IsClean : (p : FilePath) → AreNames p → IsClean (join_component (root_dir ∷ p) parent_dir)
unfolding join_component has_root
parent-IsClean p h = elim (pop-AreNames p h) [
  | inl (e, _) ↦ rw (e, join_component) h
  | inr (q, e, hq) ↦ rw (e, join_component) hq
]

join_component-IsClean :
    (p : FilePath) (c : Component) → IsClean p → IsPart c → IsClean (join_component p c)
unfolding join_component push
join_component-IsClean p root_dir h hc = tt
join_component-IsClean p cur_dir h hc = h
join_component-IsClean (root_dir ∷ p) (normal n) h hc = AreNames-append p (normal n ∷ []) h (hc, tt)
join_component-IsClean (root_dir ∷ p) parent_dir h hc = parent-IsClean p h
join_component-IsClean [] _ h hc = absurd h
join_component-IsClean (normal _ ∷ _) _ h hc = absurd h
join_component-IsClean (cur_dir ∷ _) _ h hc = absurd h
join_component-IsClean (parent_dir ∷ _) _ h hc = absurd h

join_components-IsClean :
    (p : FilePath) (cs : List Component)
    → IsClean p
    → All IsPart cs
    → IsClean (join_components p cs)
unfolding join_components
join_components-IsClean p [] h hc = h
join_components-IsClean p (c ∷ cs) h hc =
    join_components-IsClean (join_component p c) cs (join_component-IsClean p c h hc.0) hc.1

-- An absolute request starts over from the root.
absolute-IsClean :
    (cs : List Component) → has_root cs ≡ true → All IsPart cs → IsClean (join_components [] cs)
unfolding has_root join_components push
absolute-IsClean (root_dir ∷ cs) e h =
    join_components-IsClean (root_dir ∷ []) cs (unfold join_component push in tt) h.1
absolute-IsClean [] e h = cc
absolute-IsClean (cur_dir ∷ cs) e h = cc
absolute-IsClean (parent_dir ∷ cs) e h = cc
absolute-IsClean (normal n ∷ cs) e h = cc

-- Whatever the request, `..` included, the joined path is absolute and holds no `.` and no `..`.
pub join-IsClean :
    (root : FilePath) (path : Text) → IsClean root → IsClean (join_like_upstream root path)
unfolding join_like_upstream
join-IsClean root path h = elim (Bool-cases (has_root (components path))) [
  | inl e ↦ rw e (absolute-IsClean (components path) e (components-IsPart path))
  | inr e ↦ rw e (join_components-IsClean root (components path) h (components-IsPart path))
]

join_components-append : (p q : FilePath) → AreNames q → join_components p q ≡ p ++ q
unfolding join_components join_component push
join_components-append p [] h = rw append-nil
join_components-append p (normal n ∷ q) h =
    join_components-append (p ++ normal n ∷ []) q h.1 ∙ append_assoc p (normal n ∷ []) q
join_components-append p (root_dir ∷ q) h = absurd h
join_components-append p (cur_dir ∷ q) h = absurd h
join_components-append p (parent_dir ∷ q) h = absurd h

AreNames-has_root : (p : FilePath) → AreNames p → has_root p ≡ false
unfolding has_root
AreNames-has_root [] h = refl
AreNames-has_root (root_dir ∷ p) h = absurd h
AreNames-has_root (normal n ∷ p) h = refl
AreNames-has_root (cur_dir ∷ p) h = absurd h
AreNames-has_root (parent_dir ∷ p) h = absurd h

-- The names of a relative request are appended to the root.
pub join_relative :
    (root : FilePath) (path : Text)
    → AreNames (components path)
    → join_like_upstream root path ≡ root ++ components path
unfolding join_like_upstream
join_relative root path h =
    rw (AreNames-has_root (components path) h) (join_components-append root (components path) h)

-- A clean path that is written out and joined again, under any root, is the same path.
pub join-display : (root p : FilePath) → IsClean p → join_like_upstream root (display p) ≡ p
unfolding join_like_upstream
join-display root (root_dir ∷ p) h = rw (components-display (root_dir ∷ p) h) (
    unfold has_root join_components join_component push in
    join_components-append (root_dir ∷ []) p h)
join-display root [] h = absurd h
join-display root (normal n ∷ p) h = absurd h
join-display root (cur_dir ∷ p) h = absurd h
join-display root (parent_dir ∷ p) h = absurd h
