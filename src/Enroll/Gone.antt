-- ===== src/Enroll/Gone.antt =====
-- A secret that is neither held nor stored stays so, unless the enrollment server grants it.
use zyris_docker.Prelude.{
  ℕ, ◌+◌, ◌≡◌, ◌≢◌, inl, inr, ap, sym, ◌∙◌, Option, none, some, List, [], ◌∷◌, All, ltb, Bool-cases,
  Option-cases, subst, Result, ok, err, Result-cases,
}
use zyris_docker.Prelude.Text.{Text}
use zyris_docker.Runtime.Credentials.{CredentialsError}
use zyris_docker.Runtime.Credential.{Credential}
use zyris_docker.Runtime.Store.{CredentialStore, refused, unusable, is_discardable}
use zyris_docker.Enroll.Defs.{
  EnrollError, waiting, progress_lapsed, progress_denied, granted, max_renewals, Turn, Grant,
  show_code, lapsed_notice, notify, on_granted, enroll_loop, enroll, clear_stored, read_stored,
  holding, stored_or_enroll, credential, secret_of, bearer, replaced, forget, adopt_or_forget,
  forget_refused,
}
use zyris_docker.Enroll.Stored.{StoreLaws}
use zyris_docker.Enroll.Origin.{StoreOrigins}

-- No credential with the secret is granted in these turns.
abbrev pub NotGranted : Text → Turn → Type 0
NotGranted secret turn = (c : Credential) → turn.polled ≡ ok (granted c) → c.secret ≢ secret

module _ (store : CredentialStore) (secret : Text) where
  -- What the store reads back has another secret.
  abbrev pub NotStored : store.State → Type 0
  NotStored s = (d : Credential) → (store.load s).0 ≡ ok (some d) → d.secret ≢ secret

  abbrev pub IsGone : Grant store → Type 0
  IsGone g = ((c : Credential) → g.held ≡ some c → c.secret ≢ secret) × NotStored g.stored

  -- An answer of the grant: a grant without the secret, and a credential with another one.
  abbrev pub Clean : Option (Result CredentialsError Credential) × Grant store → Type 0
  Clean (some (ok c), g) = (c.secret ≢ secret) × IsGone g
  Clean (some (err e), g) = IsGone g
  Clean (none, g) = IsGone g

  abbrev CleanRead : Result CredentialsError (Option Credential) × Grant store → Type 0
  CleanRead (ok (some c), g) = (c.secret ≢ secret) × IsGone g
  CleanRead (ok none, g) = IsGone g
  CleanRead (err e, g) = IsGone g

  module _ (laws : StoreLaws store) (origins : StoreOrigins store) where
    clear-NotStored : (s : store.State) → NotStored s → NotStored (store.clear s).1
    clear-NotStored s h d e = h d (origins.load-clear_origin d s e)

    load-NotStored : (s : store.State) → NotStored s → NotStored (store.load s).1
    load-NotStored s h d e = h d (sym (laws.load-load s) ∙ e)

    save-NotStored :
        (c : Credential) (s : store.State)
        → c.secret ≢ secret
        → NotStored s
        → NotStored (store.save c s).1
    save-NotStored c s other h d e = elim (origins.load-save_origin c d s e) [
      | inl same ↦ λ clash. other (sym (ap (λ (x : Credential). x.secret) same) ∙ clash)
      | inr old ↦ h d old
    ]

    emptied-IsGone : (g : Grant store) → NotStored g.stored → IsGone (record g { held = none })
    emptied-IsGone g h = (λ c e. cc, h)

    holding-IsGone :
        (c : Credential) (g : Grant store)
        → c.secret ≢ secret
        → IsGone g
        → IsGone (record g { held = some c })
    holding-IsGone c g other gone =
        (λ d e clash. other (ap (λ (x : Credential). x.secret) (same c d e) ∙ clash), gone.1)
      where
        same : (c d : Credential) → ◌≡◌ {A = Option Credential} (some c) (some d) → c ≡ d
        same c d e = cc

    clear-IsGone : (g : Grant store) → IsGone g → IsGone (clear_stored store g).1
    unfolding clear_stored
    clear-IsGone g gone = (gone.0, clear-NotStored g.stored gone.1)

    read_stored-Clean : (g : Grant store) → IsGone g → CleanRead (read_stored store g)
    unfolding read_stored clear_stored is_discardable
    read_stored-Clean g gone =
        let after = load-NotStored g.stored gone.1 in
        elim (Result-cases (store.load g.stored).0) [
          | inl (none, e) ↦ rw e (gone.0, after)
          | inl (some c, e) ↦ rw e (gone.1 c e, (gone.0, after))
          | inr (refused m, e) ↦ rw e (gone.0, after)
          | inr (unusable m, e) ↦ rw e elim (Result-cases (store.clear (store.load g.stored).1).0) [
            | inl (a, e2) ↦ rw e2 (gone.0, clear-NotStored _ after)
            | inr (x, e2) ↦ rw e2 (gone.0, clear-NotStored _ after)
          ]
        ]

    module _ (enroll_shown : EnrollError → Text) where
      on_granted-Clean :
          (c : Credential) (g : Grant store)
          → c.secret ≢ secret
          → IsGone g
          → Clean (on_granted store enroll_shown c g)
      unfolding on_granted
      on_granted-Clean c g other gone =
          let after = save-NotStored c g.stored other gone.1 in
          elim (Result-cases (store.save c g.stored).0) [
            | inl (a, e) ↦ rw e (other, (gone.0, after))
            | inr (x, e) ↦ rw e (gone.0, after)
          ]

      enroll_loop-Clean :
          (renewals : ℕ) (turns : List Turn) (g : Grant store)
          → All (NotGranted secret) turns
          → IsGone g
          → Clean (enroll_loop store enroll_shown renewals turns g)
      unfolding enroll_loop
      enroll_loop-Clean renewals [] g grants gone = gone
      enroll_loop-Clean renewals (turn ∷ turns) g (here, grants) gone =
          let after_wait = enroll_loop-Clean renewals turns g grants gone in
          let after_renewal =
            enroll_loop-Clean (renewals + 1) turns
              (notify store show_code (notify store lapsed_notice g)) grants gone in
          elim (Result-cases turn.polled) [
            | inr (x, e) ↦ rw e gone
            | inl (waiting, e) ↦ rw e after_wait
            | inl (granted c, e) ↦ rw e (on_granted-Clean c g (here c e) gone)
            | inl (progress_denied, e) ↦ rw e gone
            | inl (progress_lapsed, e) ↦ rw e elim (Bool-cases (ltb max_renewals (renewals + 1))) [
              | inl h2 ↦ rw h2 gone
              | inr h2 ↦ rw h2 elim (Result-cases turn.renewed) [
                | inr (x, e2) ↦ rw e2 gone
                | inl (a, e2) ↦ rw e2 after_renewal
              ]
            ]
          ]

      enroll-Clean :
          (first : Result EnrollError (Unit {0})) (turns : List Turn) (g : Grant store)
          → All (NotGranted secret) turns
          → IsGone g
          → Clean (enroll store enroll_shown first turns g)
      unfolding enroll
      enroll-Clean (err e) turns g grants gone = gone
      enroll-Clean (ok _) turns g grants gone =
          enroll_loop-Clean 0 turns (notify store show_code g) grants gone

      holding-Clean :
          (reply : Option (Result CredentialsError Credential) × Grant store)
          → Clean reply
          → Clean (holding store enroll_shown reply)
      holding-Clean (some (ok c), g) (other, gone) = (other, holding-IsGone c g other gone)
      holding-Clean (some (err e), g) gone = gone
      holding-Clean (none, g) gone = gone

      from_read :
          (read : Result CredentialsError (Option Credential) × Grant store)
          (first : Result EnrollError (Unit {0})) (turns : List Turn)
          → All (NotGranted secret) turns
          → CleanRead read
          → Clean (stored_or_enroll store enroll_shown read first turns)
      from_read (ok (some c), g) first turns grants clean = clean
      from_read (ok none, g) first turns grants clean = enroll-Clean first turns g grants clean
      from_read (err e, g) first turns grants clean = clean

      credential-Clean :
          (first : Result EnrollError (Unit {0})) (turns : List Turn) (g : Grant store)
          → All (NotGranted secret) turns
          → IsGone g
          → Clean (credential store enroll_shown first turns g)
      unfolding credential
      credential-Clean first turns g grants gone = elim (Option-cases g.held) [
        | inr (c, e) ↦ rw e (gone.0 c e, holding-IsGone c g (gone.0 c e) gone)
        | inl e ↦
            rw (e, credential)
              (holding-Clean _ (from_read _ first turns grants (read_stored-Clean g gone)))
      ]

      -- A bearer that the grant answers is another secret, and it leaves the secret nowhere.
      pub bearer-IsGone :
          (first : Result EnrollError (Unit {0})) (turns : List Turn) (g after : Grant store)
          (r : Result CredentialsError Text)
          → All (NotGranted secret) turns
          → IsGone g
          → bearer store enroll_shown first turns g ≡ (some r, after)
          → (r ≢ ok secret) × IsGone after
      unfolding bearer
      bearer-IsGone first turns g after r grants gone e =
          subst (λ (reply : Option (Result CredentialsError Text) × Grant store). Answered reply) e
            (answered _ (credential-Clean first turns g grants gone))
        where
          Answered : Option (Result CredentialsError Text) × Grant store → Type 0
          Answered (some r, g) = (r ≢ ok secret) × IsGone g
          Answered (none, g) = Unit

          answered :
              (reply : Option (Result CredentialsError Credential) × Grant store)
              → Clean reply
              → Answered (secret_of store enroll_shown reply)
          answered (some (ok c), g) (other, gone) = (λ clash. other (cc), gone)
          answered (some (err x), g) gone = (λ clash. cc, gone)
          answered (none, g) gone = tt

    forget-same :
        (cleared : Result CredentialsError (Unit {0}) × Grant store)
        → IsGone cleared.1
        → IsGone (forget store cleared).1
    forget-same (ok _, g) gone = gone
    forget-same (err e, g) gone = gone

    adopt-IsGone :
        (held : Option Credential)
        (read : Result CredentialsError (Option Credential) × Grant store)
        → CleanRead read
        → IsGone (adopt_or_forget store held read).1
    adopt-IsGone held (err e, g) clean = clean
    adopt-IsGone held (ok none, g) clean = forget-same _ (clear-IsGone g clean)
    adopt-IsGone held (ok (some c), g) (other, gone) = elim (Bool-cases (replaced store held c)) [
      | inl h ↦ rw h (holding-IsGone c g other gone)
      | inr h ↦ rw h (forget-same _ (clear-IsGone g gone))
    ]

    pub forget-IsGone : (g : Grant store) → IsGone g → IsGone (forget_refused store g).1
    unfolding forget_refused
    forget-IsGone g gone =
        adopt-IsGone g.held _
          (read_stored-Clean (record g { held = none }) (emptied-IsGone g gone.1))
