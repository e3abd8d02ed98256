-- ===== src/Enroll/Stored.antt =====
-- A granted credential is stored before it is used, and a stored one is presented without asking.
use zyris_docker.Prelude.{
  ◌⊎◌, ◌≡◌, inl, inr, refl, ap, sym, subst, ◌∙◌, ℕ, ◌+◌, ltb, Bool-cases, Option, none, some, List,
  [], ◌∷◌, Result, ok, err, Result-cases,
}
use zyris_docker.Prelude.Text.{Text}
use zyris_docker.Runtime.Credentials.{CredentialsError, needs_operator}
use zyris_docker.Runtime.Credential.{Credential}
use zyris_docker.Runtime.Store.{
  CredentialStoreError, CredentialStore, memory_store, refused, unusable, is_discardable,
  store_message, credential_version,
}
use zyris_docker.Enroll.Defs.{
  EnrollError, waiting, progress_lapsed, progress_denied, granted, max_renewals, show_code,
  lapsed_notice, store_trouble, Turn, Notice, Grant, notify, holding, clear_stored, on_granted,
  enroll_loop, enroll, read_stored, credential,
}

-- What a store promises to `DeviceGrant`: it reads back what it saved, and nothing once cleared.
pub record StoreLaws (store : CredentialStore) : Type 0 where
  pub load-save :
      (c : Credential) (before after : store.State)
      → c.version ≡ credential_version
      → store.save c before ≡ (ok tt, after)
      → (store.load after).0 ≡ ok (some c)
  pub load-load :
      (before : store.State) → (store.load (store.load before).1).0 ≡ (store.load before).0
  pub load-clear :
      (before after : store.State)
      → store.clear before ≡ (ok tt, after)
      → (store.load after).0 ≡ ok none

pub memory_store-StoreLaws : StoreLaws memory_store
memory_store-StoreLaws = record {
  load-save = λ c before after v e. ap (λ r. ok r.1) (sym e);
  load-load = λ before. refl;
  load-clear = λ before after e. ap (λ r. ok r.1) (sym e);
}

module _ (store : CredentialStore) (laws : StoreLaws store) (shown : EnrollError → Text) where
  -- A reply's credential, if it is one that this node reads, is what the store reads back.
  abbrev pub Kept : Option (Result CredentialsError Credential) × Grant store → Type 0
  Kept (some (ok c), g) = c.version ≡ credential_version → (store.load g.stored).0 ≡ ok (some c)
  Kept (some (err e), g) = Unit
  Kept (none, g) = Unit

  on_granted-Kept : (c : Credential) (g : Grant store) → Kept (on_granted store shown c g)
  unfolding on_granted
  on_granted-Kept c g = elim (Result-cases (store.save c g.stored).0) [
    | inl (a, e) ↦ rw e (λ v.
        laws.load-save c g.stored (store.save c g.stored).1 v
          (ap (λ r. (r, (store.save c g.stored).1)) e))
    | inr (x, e) ↦ rw e tt
  ]

  enroll_loop-Kept :
      (renewals : ℕ) (turns : List Turn) (g : Grant store)
      → Kept (enroll_loop store shown renewals turns g)
  unfolding enroll_loop
  enroll_loop-Kept renewals [] g = tt
  enroll_loop-Kept renewals (turn ∷ turns) g =
      let after_wait = enroll_loop-Kept renewals turns g in
      let after_renewal =
        enroll_loop-Kept (renewals + 1) turns
          (notify store show_code (notify store lapsed_notice g)) in
      elim (Result-cases turn.polled) [
        | inr (x, e) ↦ rw e tt
        | inl (waiting, e) ↦ rw e after_wait
        | inl (granted c, e) ↦ rw e (on_granted-Kept c g)
        | inl (progress_denied, e) ↦ rw e tt
        | inl (progress_lapsed, e) ↦ rw e elim (Bool-cases (ltb max_renewals (renewals + 1))) [
          | inl h2 ↦ rw h2 tt
          | inr h2 ↦ rw h2 elim (Result-cases turn.renewed) [
            | inr (x, e2) ↦ rw e2 tt
            | inl (a, e2) ↦ rw e2 after_renewal
          ]
        ]
      ]

  enroll-Kept :
      (first : Result EnrollError (Unit {0})) (turns : List Turn) (g : Grant store)
      → Kept (enroll store shown first turns g)
  unfolding enroll
  enroll-Kept (err e) turns g = tt
  enroll-Kept (ok _) turns g = enroll_loop-Kept 0 turns (notify store show_code g)

  holding-Kept :
      (reply : Option (Result CredentialsError Credential) × Grant store)
      → Kept reply
      → Kept (holding store shown reply)
  holding-Kept (some (ok c), g) kept = kept
  holding-Kept (some (err e), g) kept = tt
  holding-Kept (none, g) kept = tt

  pub credential-Kept :
      (first : Result EnrollError (Unit {0})) (turns : List Turn) (g : Grant store)
      → g.held ≡ none
      → Kept (credential store shown first turns g)
  unfolding credential read_stored clear_stored is_discardable
  credential-Kept first turns g h =
      let loaded : Grant store = record g { stored = (store.load g.stored).1; held = none } in
      let cleared : Grant store = record g {
        stored = (store.clear (store.load g.stored).1).1;
        held = none;
      } in
      rw h elim (Result-cases (store.load g.stored).0) [
        | inl (none, e) ↦
            rw e (
              holding-Kept (enroll store shown first turns loaded) (enroll-Kept first turns loaded))
        | inl (some c, e) ↦ rw e (λ v. laws.load-load g.stored ∙ e)
        | inr (refused m, e) ↦ rw e tt
        | inr (unusable m, e) ↦ rw e elim (Result-cases (store.clear (store.load g.stored).1).0) [
          | inl (a, e2) ↦ rw e2 (
              holding-Kept (enroll store shown first turns cleared)
                (enroll-Kept first turns cleared))
          | inr (x, e2) ↦ rw e2 tt
        ]
      ]

  -- Whatever credential `credential` answers with nothing held, from the store or from an enrollment,
  -- a node that starts again on the same store answers with the same one, and asks nobody, provided
  -- the store keeps `StoreLaws` and the credential has the version that this node reads.
  pub credential_survives_restart :
      (first : Result EnrollError (Unit {0})) (turns : List Turn) (g after : Grant store)
      (c : Credential)
      → g.held ≡ none
      → credential store shown first turns g ≡ (some (ok c), after)
      → c.version ≡ credential_version
      → (next : Result EnrollError (Unit {0})) (more : List Turn) (notices : List Notice)
      → let again =
          credential store shown next more
            (record { stored = after.stored; held = none; notices = notices }) in
        (again.0 ≡ some (ok c)) × (again.1.notices ≡ notices)
  unfolding credential read_stored
  credential_survives_restart first turns g after c h e v next more notices =
      let back : (store.load after.stored).0 ≡ ok (some c) =
        subst Kept e (credential-Kept first turns g h) v in
      rw back (refl, refl)

-- With nothing held, the store decides: a credential that it has is presented and held, and nobody
-- is asked; over an empty store the node enrolls; what the store refuses to read stops the node
-- with the store's own message, with nothing enrolled and nothing cleared; what it cannot use is
-- cleared first and then the node enrolls, or stops if that fails.
pub credential_verdict :
    (store : CredentialStore) (shown : EnrollError → Text) (first : Result EnrollError (Unit {0}))
    (turns : List Turn) (g : Grant store)
    → g.held ≡ none
    → let answer = credential store shown first turns g in
      let loaded : Grant store = record g { stored = (store.load g.stored).1; held = none } in
      let cleared : Grant store = record loaded { stored = (store.clear loaded.stored).1 } in
      ((c : Credential) × ((store.load g.stored).0 ≡ ok (some c))
        × (answer ≡ (some (ok c), record loaded { held = some c })))
      ⊎ (((store.load g.stored).0 ≡ ok none)
          × (answer ≡ holding store shown (enroll store shown first turns loaded)))
      ⊎ ((message : Text) × ((store.load g.stored).0 ≡ err (refused message))
          × (answer ≡ (some (err (needs_operator message)), loaded)))
      ⊎ ((message : Text) × ((store.load g.stored).0 ≡ err (unusable message))
          × ((store.clear loaded.stored).0 ≡ ok tt)
          × (answer ≡ holding store shown (enroll store shown first turns cleared)))
      ⊎ ((message : Text) × (e : CredentialStoreError) × ((store.load g.stored).0
            ≡ err (unusable message))
          × ((store.clear loaded.stored).0 ≡ err e)
          × (answer ≡ (some (err (needs_operator (store_message e))), cleared)))
unfolding credential read_stored clear_stored store_trouble store_message is_discardable
credential_verdict store shown first turns g h = elim (Result-cases (store.load g.stored).0) [
  | inl (some c, e) ↦ inl (c, e, rw (h, e) refl)
  | inl (none, e) ↦ inr (inl (e, rw (h, e) refl))
  | inr (refused m, e) ↦ inr (inr (inl (m, e, rw (h, e) refl)))
  | inr (unusable m, e) ↦ elim (Result-cases (store.clear (store.load g.stored).1).0) [
    | inl (a, e2) ↦ inr (inr (inr (inl (m, e, e2, rw (h, e) rw e2 refl))))
    | inr (x, e2) ↦ inr (inr (inr (inr (m, x, e, e2, rw (h, e) rw e2 refl))))
  ]
]
