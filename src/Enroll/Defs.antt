-- ===== src/Enroll/Defs.antt =====
-- The device grant, src/enroll.rs.
use zyris_docker.Prelude.{
  ℕ, ◌+◌, Bool, true, not, Option, none, some, List, [], ◌∷◌, ◌++◌, ltb, if◌then◌else◌, Result, ok,
  err, map_err,
}
use zyris_docker.Prelude.Text.{Text, codes, text_eq}
use zyris_docker.Runtime.Credentials.{CredentialsError, needs_operator, unavailable}
use zyris_docker.Runtime.Credential.{Credential}
use zyris_docker.Runtime.Store.{
  CredentialStore, CredentialStoreError, is_discardable, store_message, decimal,
}

-- `zyris::EnrollError`; a transport error is the text that it displays as.
pub data EnrollError : Type 0 where
  scope_unknown : Text → EnrollError
  denied lapsed : EnrollError
  unreachable : Text → EnrollError

-- `zyris::Progress`
pub data Progress : Type 0 where
  waiting progress_lapsed progress_denied : Progress
  granted : Credential → Progress

abbrev pub max_renewals : ℕ
max_renewals = 3

-- The message for a scope that the server does not know.
unfoldable pub unknown_scope_message : Text → Text
unknown_scope_message scope =
    codes "this server does not know the scope "
    ++ (scope
        ++ codes
            "; it must be removed from the list this build asks for before enrollment can even show a code")

-- `enrollment_trouble`; `shown` is how the library displays its errors.
unfoldable pub enrollment_trouble : (EnrollError → Text) → EnrollError → CredentialsError
enrollment_trouble shown (scope_unknown scope) = needs_operator (unknown_scope_message scope)
enrollment_trouble shown denied = needs_operator (shown denied)
enrollment_trouble shown lapsed = unavailable (shown lapsed)
enrollment_trouble shown (unreachable error) = unavailable (shown (unreachable error))

-- `store_trouble`
unfoldable pub store_trouble : CredentialStoreError → CredentialsError
store_trouble error = needs_operator (store_message error)

unfoldable pub nobody_approved : Text
unfolding decimal
nobody_approved =
    codes "no one approved this node after "
    ++ (decimal max_renewals
        ++ codes " codes; start it again when somebody is ready to authorize it")

unfoldable pub declined : Text
declined = codes "the request was declined in the browser"

-- One turn of the polling loop: the answer to `poll`, and to `renew` where the code has lapsed.
pub record Turn : Type 0 where
  pub polled : Result EnrollError Progress
  pub renewed : Result EnrollError (Unit {0})

-- What the loop shows to a person, `LogEnroll`; the newest first in a log.
pub data Notice : Type 0 where
  show_code authorized_notice lapsed_notice denied_notice : Notice

-- A `DeviceGrant`: the store's state, the credential held, and what was shown.
pub record Grant (store : CredentialStore) : Type 0 where
  pub stored : store.State
  pub held : Option Credential
  pub notices : List Notice

module _ (store : CredentialStore) where
  open store use {State, load, save, clear}

  abbrev pub notify : Notice → Grant store → Grant store
  notify notice g = record g { notices = notice ∷ g.notices }

  -- `self.store.clear().await.map_err(store_trouble)`
  unfoldable pub clear_stored : Grant store → Result CredentialsError (Unit {0}) × Grant store
  clear_stored g =
      let (answer, after) = clear g.stored in
      (map_err store_trouble answer, record g { stored = after })

  abbrev cleared :
      Result CredentialsError (Unit {0}) × Grant store
      → Result CredentialsError (Option Credential) × Grant store
  cleared (ok _, g) = (ok none, g)
  cleared (err e, g) = (err e, g)

  abbrev discard :
      Result CredentialStoreError (Option Credential)
      → Grant store
      → Result CredentialsError (Option Credential) × Grant store
  discard (ok credential) g = (ok credential, g)
  discard (err e) g =
      if not (is_discardable e) then (err (store_trouble e), g) else cleared (clear_stored g)

  -- `DeviceGrant::stored`
  unfoldable pub read_stored :
      Grant store → Result CredentialsError (Option Credential) × Grant store
  unfolding clear_stored
  read_stored g =
      let (answer, after) = load g.stored in discard answer (record g { stored = after })

  module _ (shown : EnrollError → Text) where
    -- The reply of a call; `none` while the answers that are known do not end it.
    abbrev pub Reply : Type 0
    Reply = Option (Result CredentialsError Credential) × Grant store

    abbrev saved : Result CredentialStoreError (Unit {0}) → Credential → Grant store → Reply
    saved (ok _) credential g = (some (ok credential), notify authorized_notice g)
    saved (err e) credential g = (some (err (store_trouble e)), g)

    -- The `Granted` arm: stored before it is used.
    unfoldable pub on_granted : Credential → Grant store → Reply
    on_granted credential g =
        let (answer, after) = save credential g.stored in
        saved answer credential (record g { stored = after })

    -- The loop of `enroll`.
    unfoldable pub enroll_loop : ℕ → List Turn → Grant store → Reply
    unfolding on_granted enrollment_trouble
    enroll_loop renewals [] g = (none, g)
    enroll_loop renewals (turn ∷ turns) g = elim turn.polled [
      | err error ↦ (some (err (enrollment_trouble shown error)), g)
      | ok waiting ↦ enroll_loop renewals turns g
      | ok (granted credential) ↦ on_granted credential g
      | ok progress_lapsed ↦
          let again =
            enroll_loop (renewals + 1) turns (notify show_code (notify lapsed_notice g)) in
          if ltb max_renewals (renewals + 1)
          then (some (err (needs_operator nobody_approved)), g)
          else elim turn.renewed [
            | err error ↦ (some (err (enrollment_trouble shown error)), notify lapsed_notice g)
            | ok _ ↦ again
          ]
      | ok progress_denied ↦ (some (err (needs_operator declined)), notify denied_notice g)
    ]

    -- `DeviceGrant::enroll`: the first answer is that to `zyris::enroll`.
    unfoldable pub enroll : Result EnrollError (Unit {0}) → List Turn → Grant store → Reply
    unfolding enroll_loop
    enroll (err error) turns g = (some (err (enrollment_trouble shown error)), g)
    enroll (ok _) turns g = enroll_loop 0 turns (notify show_code g)

    abbrev pub holding : Reply → Reply
    holding (some (ok credential), g) = (some (ok credential), record g { held = some credential })
    holding (some (err e), g) = (some (err e), g)
    holding (none, g) = (none, g)

    abbrev pub stored_or_enroll :
        Result CredentialsError (Option Credential) × Grant store
        → Result EnrollError (Unit {0})
        → List Turn
        → Reply
    stored_or_enroll (ok (some credential), g) first turns = (some (ok credential), g)
    stored_or_enroll (ok none, g) first turns = enroll first turns g
    stored_or_enroll (err e, g) first turns = (some (err e), g)

    -- `DeviceGrant::credential`
    unfoldable pub credential : Result EnrollError (Unit {0}) → List Turn → Grant store → Reply
    unfolding read_stored enroll
    credential first turns g = elim g.held [
      | some held ↦ (some (ok held), g)
      | none ↦ holding (stored_or_enroll (read_stored g) first turns)
    ]

    abbrev pub secret_of : Reply → Option (Result CredentialsError Text) × Grant store
    secret_of (some (ok credential), g) = (some (ok credential.secret), g)
    secret_of (some (err e), g) = (some (err e), g)
    secret_of (none, g) = (none, g)

    -- `bearer`
    unfoldable pub bearer :
        Result EnrollError (Unit {0})
        → List Turn
        → Grant store
        → Option (Result CredentialsError Text) × Grant store
    unfolding credential
    bearer first turns g = secret_of (credential first turns g)

  -- Whether the stored credential is another one than the one refused.
  unfoldable pub replaced : Option Credential → Credential → Bool
  replaced none stored = true
  replaced (some refused) stored = not (text_eq refused.secret stored.secret)

  abbrev pub forget :
      Result CredentialsError (Unit {0}) × Grant store → Result CredentialsError Bool × Grant store
  forget (ok _, g) = (ok true, g)
  forget (err e, g) = (err e, g)

  abbrev pub adopt_or_forget :
      Option Credential
      → Result CredentialsError (Option Credential) × Grant store
      → Result CredentialsError Bool × Grant store
  adopt_or_forget refused (err e, g) = (err e, g)
  adopt_or_forget refused (ok none, g) = forget (clear_stored g)
  adopt_or_forget refused (ok (some stored), g) =
      if replaced refused stored
      then (ok true, record g { held = some stored })
      else forget (clear_stored g)

  -- `DeviceGrant::forget_refused`
  unfoldable pub forget_refused : Grant store → Result CredentialsError Bool × Grant store
  unfolding read_stored clear_stored replaced
  forget_refused g = adopt_or_forget g.held (read_stored (record g { held = none }))
