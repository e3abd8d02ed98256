-- ===== src/Enroll/Forgotten.antt =====
-- After a credential is forgotten its secret is neither held nor stored.
use zyris_docker.Prelude.{
  ◌≡◌, ◌≢◌, inl, inr, refl, ap, sym, ◌∙◌, subst, Option, none, some, Bool, true, false, Bool-cases,
  Result, ok, err, Result-cases,
}
use zyris_docker.Prelude.Text.{Text, text_eq}
use zyris_docker.Runtime.Credentials.{CredentialsError, needs_operator}
use zyris_docker.Runtime.Credential.{Credential}
use zyris_docker.Runtime.Store.{
  CredentialStore, CredentialStoreError, refused, unusable, is_discardable, store_message,
}
use zyris_docker.Enroll.Defs.{
  Grant, store_trouble, clear_stored, read_stored, replaced, forget, adopt_or_forget,
  forget_refused,
}
use zyris_docker.Enroll.Stored.{StoreLaws}
use zyris_docker.Enroll.Forget.{text_ne}
use zyris_docker.Enroll.Gone.{IsGone}

module _ (store : CredentialStore) (laws : StoreLaws store) where
  -- An answer to `forget_refused`: the old secret is gone, or the operator is asked.
  abbrev pub Forgotten : Credential → Result CredentialsError Bool × Grant store → Type 0
  Forgotten old (ok true, g) = IsGone store old.secret g
  Forgotten old (ok false, g) = ⊥
  Forgotten old (err e, g) = (message : Text) × (e ≡ needs_operator message)

  -- What was read is what the store still reads back, or the operator is asked.
  abbrev pub Found : Result CredentialsError (Option Credential) × Grant store → Type 0
  Found (ok (some c), g) = (store.load g.stored).0 ≡ ok (some c)
  Found (ok none, g) = g.held ≡ none
  Found (err e, g) = (message : Text) × (e ≡ needs_operator message)

  pub read_stored-Found : (g : Grant store) → g.held ≡ none → Found (read_stored store g)
  unfolding read_stored clear_stored is_discardable store_trouble
  read_stored-Found g h = elim (Result-cases (store.load g.stored).0) [
    | inl (none, e) ↦ rw e h
    | inl (some c, e) ↦ rw e (laws.load-load g.stored ∙ e)
    | inr (refused m, e) ↦ rw e (store_message (refused m), refl)
    | inr (unusable m, e) ↦ rw e elim (Result-cases (store.clear (store.load g.stored).1).0) [
      | inl (a, e2) ↦ rw e2 h
      | inr (x, e2) ↦ rw e2 (store_message x, refl)
    ]
  ]

  forget-Forgotten :
      (old : Credential) (g : Grant store)
      → g.held ≡ none
      → Forgotten old (forget store (clear_stored store g))
  unfolding clear_stored store_trouble
  forget-Forgotten old g h = elim (Result-cases (store.clear g.stored).0) [
    | inl (a, e) ↦ rw e (λ c x. cc, λ d x. cc (emptied a e, x))
    | inr (x, e) ↦ rw e (store_message x, refl)
  ]
    where
      emptied :
          (a : Unit {0})
          → (store.clear g.stored).0 ≡ ok a
          → (store.load (store.clear g.stored).1).0 ≡ ok none
      emptied a e =
          laws.load-clear g.stored (store.clear g.stored).1
            (ap (λ r. (r, (store.clear g.stored).1)) e)

  adopted-IsGone :
      (old c : Credential) (g : Grant store)
      → (store.load g.stored).0 ≡ ok (some c)
      → c.secret ≢ old.secret
      → IsGone store old.secret (record g { held = some c })
  adopted-IsGone old c g found other = (
    λ d e. subst Other (held_same d e) other,
    λ d e. subst Other (read_same d (sym found ∙ e)) other,
  )
    where
      Other : Credential → Type 0
      Other d = d.secret ≢ old.secret

      held_same : (d : Credential) → ◌≡◌ {A = Option Credential} (some c) (some d) → c ≡ d
      held_same d e = cc

      read_same :
          (d : Credential)
          → ◌≡◌ {A = Result CredentialStoreError (Option Credential)} (ok (some c)) (ok (some d))
          → c ≡ d
      read_same d e = cc

  adopt-Forgotten :
      (old : Credential) (read : Result CredentialsError (Option Credential) × Grant store)
      → read.1.held ≡ none
      → Found read
      → Forgotten old (adopt_or_forget store (some old) read)
  unfolding replaced
  adopt-Forgotten old (err e, g) h found = found
  adopt-Forgotten old (ok none, g) h found = forget-Forgotten old g h
  adopt-Forgotten old (ok (some c), g) h found = elim (Bool-cases (text_eq old.secret c.secret)) [
    | inl e ↦ rw e (forget-Forgotten old g h)
    | inr e ↦ rw e (adopted-IsGone old c g found (text_ne old.secret c.secret e))
  ]

  pub read_stored-held : (g : Grant store) → (read_stored store g).1.held ≡ g.held
  unfolding read_stored clear_stored is_discardable
  read_stored-held g = elim (Result-cases (store.load g.stored).0) [
    | inl (c, e) ↦ rw e refl
    | inr (refused m, e) ↦ rw e refl
    | inr (unusable m, e) ↦ rw e elim (Result-cases (store.clear (store.load g.stored).1).0) [
      | inl (a, e2) ↦ rw e2 refl
      | inr (x, e2) ↦ rw e2 refl
    ]
  ]

  pub forget_refused-Forgotten :
      (old : Credential) (g : Grant store)
      → g.held ≡ some old
      → Forgotten old (forget_refused store g)
  unfolding forget_refused
  forget_refused-Forgotten old g h =
      let emptied : Grant store = record g { held = none } in
      rw h (
        adopt-Forgotten old (read_stored store emptied) (read_stored-held emptied)
          (read_stored-Found emptied refl))
