-- ===== src/Heal/Reports.antt =====
-- When an incident is reported, over a whole run of the watcher.
use zyris_docker.Prelude.{
  ℕ, ◌+◌, ◌≡◌, refl, ap, Bool, true, false, not, ◌&&◌, ◌||◌, List, [], ◌∷◌, map, filterb, All,
  if◌then◌else◌, Bool-cases, inl, inr, arith,
}
use zyris_docker.Prelude.Text.{Text, text_eq, text_eq_sound}
use zyris_docker.Heal.Defs.{Incident, key, contains, report_loop, tick, Tick, heal_run}

abbrev pub one_if : Bool → ℕ
one_if true = 1
one_if false = 0

-- How often a key stands in a list.
abbrev pub times : Text → List Text → ℕ
times k [] = 0
times k (x ∷ xs) = one_if (text_eq k x) + times k xs

-- Whether the incident of a key stands at a tick.
abbrev pub is_down : Text → List Incident → Bool
is_down k incidents = contains k (map key incidents)

contains_same :
    (k x : Text) (keys : List Text) → text_eq k x ≡ true → contains k keys ≡ contains x keys
contains_same k x keys h = ap (λ s. contains s keys) (text_eq_sound k x h)

pub contains-filterb :
    (p : Text → Bool) (k : Text) (keys : List Text)
    → contains k (filterb p keys) ≡ (contains k keys && p k)
contains-filterb p k [] = refl
contains-filterb p k (x ∷ keys) =
    let ih = contains-filterb p k keys in
    elim (Bool-cases (text_eq k x)) [
      | inl e ↦ let same : p k ≡ p x = ap p (text_eq_sound k x e) in ground (arith, ih, same)
      | inr e ↦ ground (arith, ih)
    ]

times-taken :
    (c : Bool) (k : Text) (i : Incident) (spawned : List Incident)
    → times k (map key (if c then i ∷ spawned else spawned))
      ≡ one_if (c && text_eq k (key i)) + times k (map key spawned)
times-taken true k i spawned = refl
times-taken false k i spawned = omega arith

one_or_none : (c d : Bool) → one_if (c && true) + one_if (c && (d && not true)) ≡ one_if (c && true)
one_or_none c d = ground arith

rest_only : (c b : Bool) → one_if (c && false) + one_if (c && b) ≡ one_if (c && b)
rest_only c b = ground arith

report_loop-keys :
    (c : Bool) (incidents : List Incident) (reported : List Text) (k : Text)
    → contains k (report_loop c incidents reported).1 ≡ (contains k reported || is_down k incidents)
unfolding report_loop
report_loop-keys c [] reported k = ground arith
report_loop-keys c (i ∷ incidents) reported k =
    let skipped = report_loop-keys c incidents reported k in
    let taken = report_loop-keys c incidents (key i ∷ reported) k in
    elim (Bool-cases (contains (key i) reported)) [
      | inl b ↦
          rw (b, report_loop) rw skipped
            elim (Bool-cases (text_eq k (key i))) [
              | inl e ↦ rw (e, contains_same k (key i) reported e, b) refl
              | inr e ↦ rw e refl
            ]
      | inr b ↦
          rw (b, report_loop) rw taken
            elim (Bool-cases (text_eq k (key i))) [
              | inl e ↦ rw (e, contains_same k (key i) reported e, b) refl
              | inr e ↦ rw e refl
            ]
    ]

report_loop-times :
    (c : Bool) (incidents : List Incident) (reported : List Text) (k : Text)
    → times k (map key (report_loop c incidents reported).0)
      ≡ one_if (c && (is_down k incidents && not (contains k reported)))
unfolding report_loop
report_loop-times c [] reported k = ground arith
report_loop-times c (i ∷ incidents) reported k =
    let skipped = report_loop-times c incidents reported k in
    let taken = report_loop-times c incidents (key i ∷ reported) k in
    elim (Bool-cases (contains (key i) reported)) [
      | inl b ↦
          rw (b, report_loop) rw skipped
            elim (Bool-cases (text_eq k (key i))) [
              | inl e ↦ rw (e, contains_same k (key i) reported e, b) ground arith
              | inr e ↦ rw e refl
            ]
      | inr b ↦
          rw (b, report_loop) rw
            (times-taken c k i (report_loop c incidents (key i ∷ reported)).0, taken)
            elim (Bool-cases (text_eq k (key i))) [
              | inl e ↦
                  rw (e, contains_same k (key i) reported e, b)
                    (one_or_none c (is_down k incidents))
              | inr e ↦ rw e (rest_only c (is_down k incidents && not (contains k reported)))
            ]
    ]

-- After a tick the keys kept are those of what is down at it.
pub tick-keys :
    (c : Bool) (incidents : List Incident) (reported : List Text) (k : Text)
    → contains k (tick c incidents reported).1 ≡ is_down k incidents
unfolding tick
tick-keys c incidents reported k =
    rw
      (
        report_loop-keys c incidents (filterb (λ x. contains x (map key incidents)) reported) k,
        contains-filterb (λ x. contains x (map key incidents)) k reported,
      )
      ground arith

tick-times :
    (c : Bool) (incidents : List Incident) (reported : List Text) (k : Text)
    → times k (map key (tick c incidents reported).0)
      ≡ one_if (c && (is_down k incidents && not (contains k reported)))
unfolding tick
tick-times c incidents reported k =
    rw
      (
        report_loop-times c incidents (filterb (λ x. contains x (map key incidents)) reported) k,
        contains-filterb (λ x. contains x (map key incidents)) k reported,
      )
      ground arith

-- At each tick: one where there is a connection and the incident is there, and it was not there at
-- the tick before.
abbrev pub new_with_connection : Text → Bool → List Tick → List ℕ
new_with_connection k was [] = []
new_with_connection k was (t ∷ ticks) =
    one_if (t.connected && (is_down k t.incidents && not was))
    ∷ new_with_connection k (is_down k t.incidents) ticks

-- Over any run, an incident is reported once at each tick at which it is there, was not there at the
-- tick before, and the slot holds a connection, and at no other tick.
pub heal_run-times :
    (k : Text) (reported : List Text) (ticks : List Tick)
    → map (λ spawned. times k (map key spawned)) (heal_run reported ticks)
      ≡ new_with_connection k (contains k reported) ticks
unfolding heal_run
heal_run-times k reported [] = refl
heal_run-times k reported (t ∷ ticks) =
    let later = heal_run-times k (tick t.connected t.incidents reported).1 ticks in
    rw
      (
        tick-times t.connected t.incidents reported k,
        later,
        tick-keys t.connected t.incidents reported k,
      )
      refl

abbrev pub zeros : List Tick → List ℕ
zeros [] = []
zeros (t ∷ ticks) = 0 ∷ zeros ticks

still_down :
    (k : Text) (ticks : List Tick)
    → All (λ t. is_down k t.incidents ≡ true) ticks
    → new_with_connection k true ticks ≡ zeros ticks
still_down k [] h = refl
still_down k (t ∷ ticks) (here, h) = rw (here, still_down k ticks h) ground arith

-- An incident that is first seen at a tick with no connection is not reported at that tick, nor at
-- any later one until it has been away, whatever connections there are by then.
pub heal_run-missed :
    (k : Text) (reported : List Text) (t : Tick) (ticks : List Tick)
    → t.connected ≡ false
    → is_down k t.incidents ≡ true
    → All (λ later. is_down k later.incidents ≡ true) ticks
    → map (λ spawned. times k (map key spawned)) (heal_run reported (t ∷ ticks)) ≡ zeros (t ∷ ticks)
heal_run-missed k reported t ticks away here down =
    rw (heal_run-times k reported (t ∷ ticks), away, here, still_down k ticks down) refl
