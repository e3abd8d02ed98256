-- ===== src/Enroll/Forget.antt =====
-- A refused credential is forgotten, unless a sibling replaced it.
use zyris_docker.Prelude.{
  ◌≡◌, ◌≢◌, ◌⊎◌, inl, inr, refl, ap, sym, subst, ◌∙◌, Option, none, some, List, Bool, true, false,
  Bool-cases, Result, ok, err, Result-cases,
}
use mathlib.Core.Bool.{true≢false}
use zyris_docker.Prelude.Text.{Text, text_eq, text_eq_refl}
use zyris_docker.Runtime.Credentials.{CredentialsError, needs_operator}
use zyris_docker.Runtime.Credential.{Credential}
use zyris_docker.Runtime.Store.{CredentialStore, refused, unusable, is_discardable, store_message}
use zyris_docker.Enroll.Defs.{
  EnrollError, Turn, Grant, store_trouble, clear_stored, read_stored, credential, bearer, replaced,
  forget, adopt_or_forget, forget_refused,
}
use zyris_docker.Enroll.Stored.{StoreLaws}

pub text_ne : (s t : Text) → text_eq s t ≡ false → t ≢ s
text_ne s t h same = absurd (true≢false (sym (text_eq_refl s) ∙ ap (text_eq s) (sym same) ∙ h))

module _ (store : CredentialStore) (laws : StoreLaws store) where
  -- What is left to present after `old` was refused.
  abbrev Left : Credential → Result CredentialsError Bool × Grant store → Type 0
  Left old (ok true, g) =
      ((g.held ≡ none) × ((store.load g.stored).0 ≡ ok none))
      ⊎ ((c : Credential) × (g.held ≡ some c) × (c.secret ≢ old.secret))
  Left old (ok false, g) = ⊥
  Left old (err e, g) = (message : Text) × (e ≡ needs_operator message)

  -- A failure that asks for the operator.
  abbrev Asks : Result CredentialsError (Option Credential) → Type 0
  Asks (ok c) = Unit
  Asks (err e) = (message : Text) × (e ≡ needs_operator message)

  cleared-Left :
      (old : Credential) (g : Grant store)
      → g.held ≡ none
      → Left old (forget store (clear_stored store g))
  unfolding clear_stored store_trouble
  cleared-Left old g h = elim (Result-cases (store.clear g.stored).0) [
    | inl (a, e) ↦ rw e (
        inl (
          h,
          laws.load-clear g.stored (store.clear g.stored).1
              (ap (λ r. (r, (store.clear g.stored).1)) e),
        ))
    | inr (x, e) ↦ rw e (store_message x, refl)
  ]

  adopt-Left :
      (old : Credential) (r : Result CredentialsError (Option Credential)) (g : Grant store)
      → g.held ≡ none
      → Asks r
      → Left old (adopt_or_forget store (some old) (r, g))
  unfolding replaced
  adopt-Left old (err e) g h trouble = trouble
  adopt-Left old (ok none) g h trouble = cleared-Left old g h
  adopt-Left old (ok (some c)) g h trouble = elim (Bool-cases (text_eq old.secret c.secret)) [
    | inl e ↦ rw e (cleared-Left old g h)
    | inr e ↦ rw e (inr (c, refl, text_ne old.secret c.secret e))
  ]

  read_stored_lem :
      (g : Grant store) → Asks (read_stored store g).0 × ((read_stored store g).1.held ≡ g.held)
  unfolding read_stored clear_stored store_trouble is_discardable
  read_stored_lem g = elim (Result-cases (store.load g.stored).0) [
    | inl (c, e) ↦ rw e (tt, refl)
    | inr (refused m, e) ↦ rw e ((store_message (refused m), refl), refl)
    | inr (unusable m, e) ↦ rw e elim (Result-cases (store.clear (store.load g.stored).1).0) [
      | inl (a, e2) ↦ rw e2 (tt, refl)
      | inr (x, e2) ↦ rw e2 ((store_message x, refl), refl)
    ]
  ]

  forget_refused-Left :
      (old : Credential) (g : Grant store) → g.held ≡ some old → Left old (forget_refused store g)
  unfolding forget_refused
  forget_refused-Left old g h =
      let emptied : Grant store = record g { held = none } in
      let (asks, unheld) = read_stored_lem emptied in
      rw h (adopt-Left old (read_stored store emptied).0 (read_stored store emptied).1 unheld asks)

  -- Over a store that keeps `StoreLaws`: once `forget_refused` has answered that the node may dial
  -- again, the refused credential is not presented again. Either nothing is held and the store is
  -- empty, so the next dial enrolls, or a credential with another secret is held.
  pub refused_not_presented :
      (old : Credential) (g after : Grant store)
      → g.held ≡ some old
      → forget_refused store g ≡ (ok true, after)
      → ((after.held ≡ none) × ((store.load after.stored).0 ≡ ok none))
        ⊎ ((c : Credential) × (after.held ≡ some c) × (c.secret ≢ old.secret))
  refused_not_presented old g after h e = subst (Left old) e (forget_refused-Left old g h)

-- A credential that a sibling stored in place of the refused one is adopted: `forget_refused` leaves
-- the store as reading it left it, clears nothing, and the next `bearer` is the sibling's secret.
pub sibling_adopted :
    (store : CredentialStore) (shown : EnrollError → Text) (old new : Credential) (g : Grant store)
    (first : Result EnrollError (Unit {0})) (turns : List Turn)
    → g.held ≡ some old
    → (store.load g.stored).0 ≡ ok (some new)
    → text_eq old.secret new.secret ≡ false
    → let after = record g { stored = (store.load g.stored).1; held = some new } in
      (forget_refused store g ≡ (ok true, after))
      × (bearer store shown first turns after ≡ (some (ok new.secret), after))
unfolding forget_refused read_stored replaced bearer credential
sibling_adopted store shown old new g first turns h e apart = rw (e, h) rw apart (refl, refl)
