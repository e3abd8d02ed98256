-- ===== src/Enroll/Holding.antt =====
-- A grant holds only what its store reads back.
use zyris_docker.Prelude.{
  ℕ, ◌+◌, ◌≡◌, arith, inl, inr, refl, sym, ap, ◌∙◌, subst, Option, none, some, List, [], ◌∷◌, ltb,
  Bool-cases, Option-cases, Result, ok, err, Result-cases,
}
use zyris_docker.Prelude.Text.{Text}
use zyris_docker.Runtime.Credentials.{CredentialsError}
use zyris_docker.Runtime.Credential.{Credential}
use zyris_docker.Runtime.Store.{CredentialStore, credential_version}
use zyris_docker.Enroll.Defs.{
  EnrollError, waiting, progress_lapsed, progress_denied, granted, max_renewals, Turn, Grant,
  show_code, lapsed_notice, notify, on_granted, enroll_loop, enroll, clear_stored, read_stored,
  holding, stored_or_enroll, credential, secret_of, bearer, replaced, forget, adopt_or_forget,
  forget_refused,
}
use zyris_docker.Enroll.Stored.{StoreLaws, Kept, credential-Kept}
use zyris_docker.Enroll.Forgotten.{Found, read_stored-Found, read_stored-held}

module _ (store : CredentialStore) (enroll_shown : EnrollError → Text) where
  on_granted-held :
      (c : Credential) (g : Grant store) → (on_granted store enroll_shown c g).1.held ≡ g.held
  unfolding on_granted
  on_granted-held c g = elim (Result-cases (store.save c g.stored).0) [
    | inl (a, e) ↦ rw e refl
    | inr (x, e) ↦ rw e refl
  ]

  enroll_loop-held :
      (renewals : ℕ) (turns : List Turn) (g : Grant store)
      → (enroll_loop store enroll_shown renewals turns g).1.held ≡ g.held
  unfolding enroll_loop
  enroll_loop-held renewals [] g = refl
  enroll_loop-held renewals (turn ∷ turns) g =
      let after_wait = enroll_loop-held renewals turns g in
      let after_renewal =
        enroll_loop-held (renewals + 1) turns
          (notify store show_code (notify store lapsed_notice g)) in
      elim (Result-cases turn.polled) [
        | inr (x, e) ↦ rw e refl
        | inl (waiting, e) ↦ rw e after_wait
        | inl (granted c, e) ↦ rw e (on_granted-held c g)
        | inl (progress_denied, e) ↦ rw e refl
        | inl (progress_lapsed, e) ↦ rw e elim (Bool-cases (ltb max_renewals (renewals + 1))) [
          | inl h2 ↦ rw h2 refl
          | inr h2 ↦ rw h2 elim (Result-cases turn.renewed) [
            | inr (x, e2) ↦ rw e2 refl
            | inl (a, e2) ↦ rw e2 after_renewal
          ]
        ]
      ]

  enroll-held :
      (first : Result EnrollError (Unit {0})) (turns : List Turn) (g : Grant store)
      → (enroll store enroll_shown first turns g).1.held ≡ g.held
  unfolding enroll
  enroll-held (err e) turns g = refl
  enroll-held (ok _) turns g = enroll_loop-held 0 turns (notify store show_code g)

module _ (store : CredentialStore) (laws : StoreLaws store) where
  -- What is held, if it has the version that this node reads, is what the store reads back.
  abbrev pub HeldIsStored : Grant store → Type 0
  HeldIsStored g =
      (c : Credential)
      → g.held ≡ some c
      → c.version ≡ credential_version
      → (store.load g.stored).0 ≡ ok (some c)

  unheld : (g : Grant store) → g.held ≡ none → HeldIsStored g
  unheld g h c e v = cc

  module _ (enroll_shown : EnrollError → Text) where
    -- A reply of `credential`: a credential is held, and nothing is held with an error.
    abbrev Settled : Option (Result CredentialsError Credential) × Grant store → Type 0
    Settled (some (ok c), g) = g.held ≡ some c
    Settled (some (err e), g) = g.held ≡ none
    Settled (none, g) = g.held ≡ none

    holding-Settled :
        (reply : Option (Result CredentialsError Credential) × Grant store)
        → reply.1.held ≡ none
        → Settled (holding store enroll_shown reply)
    holding-Settled (some (ok c), g) h = refl
    holding-Settled (some (err e), g) h = h
    holding-Settled (none, g) h = h

    from_read :
        (read : Result CredentialsError (Option Credential) × Grant store)
        (first : Result EnrollError (Unit {0})) (turns : List Turn)
        → read.1.held ≡ none
        → (stored_or_enroll store enroll_shown read first turns).1.held ≡ none
    from_read (ok (some c), g) first turns h = h
    from_read (ok none, g) first turns h = enroll-held store enroll_shown first turns g ∙ h
    from_read (err e, g) first turns h = h

    credential-Settled :
        (first : Result EnrollError (Unit {0})) (turns : List Turn) (g : Grant store)
        → g.held ≡ none
        → Settled (credential store enroll_shown first turns g)
    unfolding credential
    credential-Settled first turns g h =
        rw (h, credential)
          (holding-Settled _
            (from_read (read_stored store g) first turns (read_stored-held store laws g ∙ h)))

    Settled-stored :
        (reply : Option (Result CredentialsError Credential) × Grant store)
        → Settled reply
        → Kept store laws enroll_shown reply
        → HeldIsStored reply.1
    Settled-stored (some (ok d), g) held kept = λ c e v.
        let same : d ≡ c = some_same d c (sym held ∙ e) in
        subst (λ (x : Credential). (store.load g.stored).0 ≡ ok (some x)) same
          (kept (ap (λ (x : Credential). x.version) same ∙ v))
      where
        some_same : (d c : Credential) → ◌≡◌ {A = Option Credential} (some d) (some c) → d ≡ c
        some_same d c p = cc
    Settled-stored (some (err x), g) held kept = unheld g held
    Settled-stored (none, g) held kept = unheld g held

    already :
        (first : Result EnrollError (Unit {0})) (turns : List Turn) (g : Grant store)
        (c : Credential)
        → g.held ≡ some c
        → (credential store enroll_shown first turns g).1 ≡ g
    unfolding credential
    already first turns g c e = ground (arith, e)

    credential-HeldIsStored :
        (first : Result EnrollError (Unit {0})) (turns : List Turn) (g : Grant store)
        → HeldIsStored g
        → HeldIsStored (credential store enroll_shown first turns g).1
    credential-HeldIsStored first turns g stored = elim (Option-cases g.held) [
      | inl e ↦
          Settled-stored _ (credential-Settled first turns g e)
            (credential-Kept store laws enroll_shown first turns g e)
      | inr (c, e) ↦ subst HeldIsStored (sym (already first turns g c e)) stored
    ]

    pub bearer-HeldIsStored :
        (first : Result EnrollError (Unit {0})) (turns : List Turn) (g after : Grant store)
        (r : Option (Result CredentialsError Text))
        → HeldIsStored g
        → bearer store enroll_shown first turns g ≡ (r, after)
        → HeldIsStored after
    unfolding bearer
    bearer-HeldIsStored first turns g after r stored e =
        subst HeldIsStored
          (same_grant (credential store enroll_shown first turns g)
            ∙ ap (λ (x : Option (Result CredentialsError Text) × Grant store). x.1) e)
          (credential-HeldIsStored first turns g stored)
      where
        same_grant :
            (reply : Option (Result CredentialsError Credential) × Grant store)
            → reply.1 ≡ (secret_of store enroll_shown reply).1
        same_grant (some (ok c), g) = refl
        same_grant (some (err x), g) = refl
        same_grant (none, g) = refl

  forget-unheld :
      (g : Grant store) → g.held ≡ none → (forget store (clear_stored store g)).1.held ≡ none
  unfolding clear_stored
  forget-unheld g h = elim (Result-cases (store.clear g.stored).0) [
    | inl (a, e) ↦ rw e h
    | inr (x, e) ↦ rw e h
  ]

  adopt-HeldIsStored :
      (old : Option Credential) (read : Result CredentialsError (Option Credential) × Grant store)
      → read.1.held ≡ none
      → Found store laws read
      → HeldIsStored (adopt_or_forget store old read).1
  adopt-HeldIsStored old (err e, g) h found = unheld g h
  adopt-HeldIsStored old (ok none, g) h found =
      unheld (forget store (clear_stored store g)).1 (forget-unheld g h)
  adopt-HeldIsStored old (ok (some c), g) h found = elim (Bool-cases (replaced store old c)) [
    | inl r ↦ rw r (λ d e v. found ∙ ap ok e)
    | inr r ↦ rw r (unheld (forget store (clear_stored store g)).1 (forget-unheld g h))
  ]

  pub forget-HeldIsStored : (g : Grant store) → HeldIsStored (forget_refused store g).1
  unfolding forget_refused
  forget-HeldIsStored g =
      let emptied : Grant store = record g { held = none } in
      adopt-HeldIsStored g.held (read_stored store emptied) (read_stored-held store laws emptied)
        (read_stored-Found store laws emptied refl)
