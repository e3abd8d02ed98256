-- ===== src/Enroll/Tests.antt =====
-- Device grants over the store in memory, and the theorems on them.
use zyris_docker.Prelude.{
  ◌≡◌, ◌⊎◌, inl, inr, refl, Option, none, some, List, [], ◌∷◌, ltb, if◌then◌else◌, ok, err,
}
use zyris_docker.Prelude.Text.{Text, codes}
use zyris_docker.Runtime.Credentials.{needs_operator, Env}
use zyris_docker.Runtime.Config.{RunConfig, default_config}
use zyris_docker.Runtime.Credential.{Named, Credential}
use zyris_docker.Enroll.Defs.{holding}
use zyris_docker.Runtime.Store.{
  unusable, store_message, CredentialStoreError, refused, CredentialStore, memory_store,
}
use zyris_docker.Enroll.Defs.{
  EnrollError, Progress, waiting, granted, progress_lapsed, nobody_approved, Turn, Grant,
  on_granted, enroll_loop, enroll, read_stored, credential,
}
use zyris_docker.Enroll.Renewals.{lapses, enroll_gives_up}
use zyris_docker.Enroll.Stored.{
  memory_store-StoreLaws, credential_survives_restart, credential_verdict,
}

abbrev named : Named
named = record { id = codes "i"; name = codes "srv-a"; slug = codes "srv-a" }

abbrev credential_of : Text → Credential
credential_of secret = record {
  version = 2;
  secret = secret;
  system = named;
  program = named;
  scopes = [];
  owner_email = codes "e@example.com";
}

abbrev old_credential : Credential
old_credential = credential_of (codes "zc_old")

abbrev new_credential : Credential
new_credential = credential_of (codes "zc_new")

abbrev shown : EnrollError → Text
shown e = codes "enrollment failed"

abbrev grant_of : Option Credential → Option Credential → Grant memory_store
grant_of stored held = record { stored = stored; held = held; notices = [] }

abbrev turn_of : Progress → Turn
turn_of progress = record { polled = ok progress; renewed = ok tt }

-- The first code lapses, and somebody approves the second.
abbrev approved_late : List Turn
approved_late = turn_of waiting ∷ turn_of progress_lapsed ∷ turn_of (granted new_credential) ∷ []

abbrev four_lapses : List Turn
four_lapses =
    turn_of progress_lapsed
    ∷ turn_of progress_lapsed
    ∷ turn_of waiting
    ∷ turn_of progress_lapsed
    ∷ turn_of progress_lapsed
    ∷ []

approved_late_answers :
    (credential memory_store shown (ok tt) approved_late (grant_of none none)).0
    ≡ some (ok new_credential)
unfolding credential read_stored enroll enroll_loop on_granted
approved_late_answers = refl

enroll_gives_up_example :
    (enroll memory_store shown (ok tt) four_lapses (grant_of none none)).0
    ≡ (if ltb 3 (lapses four_lapses) then some (err (needs_operator nobody_approved)) else none)
enroll_gives_up_example =
    enroll_gives_up memory_store shown four_lapses (grant_of none none)
      (inr (refl, refl), (inr (refl, refl), (inl refl, (inr (refl, refl), (inr (refl, refl), tt)))))

abbrev after_enrollment : Grant memory_store
after_enrollment = (credential memory_store shown (ok tt) approved_late (grant_of none none)).1

credential_survives_restart_example :
    let again =
      credential memory_store shown
        (err (EnrollError.denied))
        []
        (record { stored = after_enrollment.stored; held = none; notices = [] }) in
    (again.0 ≡ some (ok new_credential)) × (again.1.notices ≡ [])
unfolding credential read_stored enroll enroll_loop on_granted
credential_survives_restart_example =
    credential_survives_restart memory_store memory_store-StoreLaws shown (ok tt) approved_late
      (grant_of none none) after_enrollment new_credential refl refl refl (err (EnrollError.denied))
      [] []

-- A store whose file is readable by others.
abbrev exposed_store : CredentialStore
exposed_store = record {
  State = Unit {0};
  load = λ s. (err (refused (codes "exposed")), s);
  save = λ c s. (ok tt, s);
  clear = λ s. (ok tt, s);
  describe = λ s. codes "file";
}

abbrev over_exposed : Grant exposed_store
over_exposed = record { stored = tt; held = none; notices = [] }

credential_verdict_example :
    let answer = credential exposed_store shown (ok tt) approved_late over_exposed in
    ((c : Credential) × ((exposed_store.load tt).0 ≡ ok (some c))
      × (answer ≡ (some (ok c), record over_exposed { held = some c })))
    ⊎ (((exposed_store.load tt).0 ≡ ok none)
        × (answer
            ≡ holding exposed_store shown
                (enroll exposed_store shown (ok tt) approved_late over_exposed)))
    ⊎ ((message : Text) × ((exposed_store.load tt).0 ≡ err (refused message))
        × (answer ≡ (some (err (needs_operator message)), over_exposed)))
    ⊎ ((message : Text) × ((exposed_store.load tt).0 ≡ err (unusable message))
        × ((exposed_store.clear tt).0 ≡ ok tt)
        × (answer
            ≡ holding exposed_store shown
                (enroll exposed_store shown (ok tt) approved_late over_exposed)))
    ⊎ ((message : Text) × (e : CredentialStoreError) × ((exposed_store.load tt).0
          ≡ err (unusable message))
        × ((exposed_store.clear tt).0 ≡ err e)
        × (answer ≡ (some (err (needs_operator (store_message e))), over_exposed)))
credential_verdict_example =
    credential_verdict exposed_store shown (ok tt) approved_late over_exposed refl

abbrev bare : Env
bare name = none

abbrev config : RunConfig
config = default_config (codes "wss://a") none
