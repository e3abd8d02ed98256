-- ===== src/Heal/News.antt =====
-- What the watcher reports at each tick, against the set of what was down at the tick before.
use zyris_docker.Prelude.{
  ◌≡◌, refl, sym, ap, ◌∙◌, fun_ext, Bool, true, false, not, ◌&&◌, ◌||◌, List, [], ◌∷◌, filterb,
  if◌then◌else◌, Bool-cases, inl, inr, arith,
}
use zyris_docker.Prelude.Text.{Text, text_eq, text_eq_sound, text_eq_refl}
use zyris_docker.Heal.Defs.{Incident, key, contains, report_loop, tick, Tick, heal_run}
use zyris_docker.Heal.Reports.{is_down, contains-filterb, tick-keys}

-- Of the incidents with one key, the first.
abbrev pub first_of_key : List Incident → List Incident
first_of_key [] = []
first_of_key (i ∷ incidents) =
    i ∷ filterb (λ j. not (text_eq (key j) (key i))) (first_of_key incidents)

-- What is down and was not before, each incident once.
abbrev pub news : (Text → Bool) → List Incident → List Incident
news was incidents = first_of_key (filterb (λ i. not (was (key i))) incidents)

-- A watcher that keeps a set of keys, as its membership test, and only that of the last tick.
abbrev pub news_run : (Text → Bool) → List Tick → List (List Incident)
news_run was [] = []
news_run was (t ∷ ticks) =
    (if t.connected then news was t.incidents else []) ∷ news_run (λ k. is_down k t.incidents) ticks

filterb-filterb :
    (p q : Incident → Bool) (xs : List Incident)
    → filterb p (filterb q xs) ≡ filterb (λ x. p x && q x) xs
filterb-filterb p q [] = refl
filterb-filterb p q (x ∷ xs) =
    let ih = filterb-filterb p q xs in
    elim (Bool-cases (q x)) [
      | inl e ↦ elim (Bool-cases (p x)) [ inl f ↦ rw (e, f, ih) refl | inr f ↦ rw (e, f, ih) refl ]
      | inr e ↦ elim (Bool-cases (p x)) [ inl f ↦ rw (e, f, ih) refl | inr f ↦ rw (e, f, ih) refl ]
    ]

later : (a b : Bool) → b ≡ true → (a || b) ≡ true
later a b h = ground (arith, h)

-- Two tests that agree on what is in the list, by its keys, choose the same.
filterb-cong :
    (p q : Incident → Bool) (xs : List Incident)
    → ((x : Incident) → is_down (key x) xs ≡ true → p x ≡ q x)
    → filterb p xs ≡ filterb q xs
filterb-cong p q [] h = refl
filterb-cong p q (x ∷ xs) h =
    let here : p x ≡ q x = h x (rw (text_eq_refl (key x)) refl) in
    let ih = filterb-cong p q xs (λ y down. h y (later (text_eq (key y) (key x)) _ down)) in
    rw (here, ih) refl

filterb_comm :
    (p q : Incident → Bool) (xs : List Incident)
    → filterb p (filterb q xs) ≡ filterb q (filterb p xs)
filterb_comm p q xs =
    filterb-filterb p q xs
    ∙ filterb-cong (λ x. p x && q x) (λ x. q x && p x) xs (λ x _. ground arith)
    ∙ sym (filterb-filterb q p xs)

-- A key that the test passes is another one than a key that it does not pass.
apart : (p : Text → Bool) (k x : Text) → p x ≡ false → (p k && not (text_eq k x)) ≡ p k
apart p k x h = elim (Bool-cases (text_eq k x)) [
  | inl e ↦ let same : p k ≡ p x = ap p (text_eq_sound k x e) in rw (e, same, h) refl
  | inr e ↦ ground (arith, e)
]

-- A test that goes by the key passes over the first of each key.
first_of_key-filterb :
    (p : Text → Bool) (xs : List Incident)
    → first_of_key (filterb (λ i. p (key i)) xs) ≡ filterb (λ i. p (key i)) (first_of_key xs)
first_of_key-filterb p [] = refl
first_of_key-filterb p (x ∷ xs) = elim (Bool-cases (p (key x))) [
  | inl e ↦
      rw (e, first_of_key-filterb p xs)
        (ap (λ l. x ∷ l) (filterb_comm _ (λ i. p (key i)) (first_of_key xs)))
  | inr e ↦
      rw (e, first_of_key-filterb p xs)
        (sym (
          filterb-filterb (λ i. p (key i)) _ (first_of_key xs)
          ∙ filterb-cong _ (λ i. p (key i)) (first_of_key xs) (λ i _. apart p (key i) (key x) e)))
]

-- A key that was reported is not new.
news-reported :
    (i : Incident) (incidents : List Incident) (reported : List Text)
    → news (λ k. contains k (key i ∷ reported)) incidents
      ≡ filterb (λ j. not (text_eq (key j) (key i))) (news (λ k. contains k reported) incidents)
news-reported i incidents reported =
    let fresh : Incident → Bool = λ j. not (contains (key j) reported) in
    let other : Incident → Bool = λ j. not (text_eq (key j) (key i)) in
    ap first_of_key (
      filterb-cong _ (λ j. other j && fresh j) incidents (λ j _. ground arith)
      ∙ sym (filterb-filterb other fresh incidents))
    ∙ first_of_key-filterb (λ k. not (text_eq k (key i))) (filterb fresh incidents)

taken :
    (c : Bool) (i : Incident) (incidents : List Incident) (reported : List Text)
    → let rest = if c then news (λ k. contains k (key i ∷ reported)) incidents else [] in
      (if c then i ∷ rest else rest) ≡ (
        if c
        then i
          ∷ filterb (λ j. not (text_eq (key j) (key i))) (news (λ k. contains k reported) incidents)
        else [])
taken true i incidents reported = ap (λ l. i ∷ l) (news-reported i incidents reported)
taken false i incidents reported = refl

-- What the loop over the incidents spawns is what is new.
report_loop-news :
    (c : Bool) (incidents : List Incident) (reported : List Text)
    → (report_loop c incidents reported).0
      ≡ (if c then news (λ k. contains k reported) incidents else [])
unfolding report_loop
report_loop-news true [] reported = refl
report_loop-news false [] reported = refl
report_loop-news c (i ∷ incidents) reported = elim (Bool-cases (contains (key i) reported)) [
  | inl b ↦ rw (b, report_loop, report_loop-news c incidents reported) refl
  | inr b ↦
      rw (b, report_loop, report_loop-news c incidents (key i ∷ reported))
        (taken c i incidents reported)
]

-- The keys that a tick drops are those of nothing that is down.
news-filterb :
    (incidents : List Incident) (reported : List Text)
    → news (λ k. contains k (filterb (λ x. is_down x incidents) reported)) incidents
      ≡ news (λ k. contains k reported) incidents
news-filterb incidents reported = ap first_of_key (
    filterb-cong _ (λ i. not (contains (key i) reported)) incidents
      (λ i down.
        rw (contains-filterb (λ x. is_down x incidents) (key i) reported, down) ground arith))

pub tick-news :
    (c : Bool) (incidents : List Incident) (reported : List Text)
    → (tick c incidents reported).0 ≡ (if c then news (λ k. contains k reported) incidents else [])
unfolding tick
tick-news c incidents reported =
    rw
      (
        report_loop-news c incidents (filterb (λ x. is_down x incidents) reported),
        news-filterb incidents reported,
      )
      refl

-- Over any run, a tick with a connection reports what is down at it and was not at the tick
-- before, each incident once and in the order of the sample, and a tick without one reports
-- nothing. So what the watcher keeps comes to the set of what was down at the last tick.
pub heal_run-news :
    (reported : List Text) (ticks : List Tick)
    → heal_run reported ticks ≡ news_run (λ k. contains k reported) ticks
unfolding heal_run
heal_run-news reported [] = refl
heal_run-news reported (t ∷ ticks) =
    let after : List Text = (tick t.connected t.incidents reported).1 in
    let kept : (λ k. contains k after) ≡ (λ k. is_down k t.incidents) =
      fun_ext (λ k. tick-keys t.connected t.incidents reported k) in
    rw (tick-news t.connected t.incidents reported, heal_run-news after ticks, kept) refl
