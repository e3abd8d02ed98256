-- ===== src/Node/Tests.antt =====
-- A node over the store in memory that is enrolled, refused and enrolled again.
use zyris_docker.Prelude.{◌≡◌, ◌≢◌, refl, arith, false, none, some, [], ◌∷◌, ok, err}
use zyris_docker.Prelude.Text.{Text, codes}
use zyris_docker.Runtime.Credentials.{token_prefix}
use zyris_docker.Runtime.Config.{RunConfig, default_config}
use zyris_docker.Runtime.Credential.{Named, Credential}
use zyris_docker.Runtime.Runner.{
  ConnectError, unauthorized, refusal_of, dialling, serving, connected, forgot_credential, start,
  on_bearer, step,
}
use zyris_docker.Runtime.Store.{memory_store, credential_version}
use zyris_docker.Enroll.{
  EnrollError, granted, Turn, show_code, authorized_notice, bearer, credential, read_stored, enroll,
  enroll_loop, on_granted,
}
use zyris_docker.Enroll.Stored.{memory_store-StoreLaws}
use zyris_docker.Enroll.Origin.{memory_store-StoreOrigins}
use zyris_docker.Node.{Input, asks, dials, forgets, Node, start_node, node_step, node_run}
use zyris_docker.Node.Presented.{refused_never_dialled}
use zyris_docker.Node.Reenrolls.{Succeeds, revoked_node_returns}

abbrev named : Named
named = record { id = codes "i"; name = codes "srv-a"; slug = codes "srv-a" }

abbrev credential_of : Text → Credential
credential_of secret = record {
  version = 2;
  secret = secret;
  system = named;
  program = named;
  scopes = [];
  owner_email = codes "e@example.com";
}

abbrev shown : ConnectError → Text
shown e = codes "refused"

abbrev enroll_shown : EnrollError → Text
enroll_shown e = codes "enrollment failed"

abbrev config : RunConfig
config = default_config (codes "wss://a") none

abbrev turn_of : Text → Turn
turn_of secret = record { polled = ok (granted (credential_of secret)); renewed = ok tt }

abbrev enrolling : Text → Input memory_store
enrolling secret = asks (ok tt) (turn_of secret ∷ [])

abbrev fresh : Node memory_store
fresh = start_node memory_store config shown enroll_shown (some (codes "memory")) none

-- The node has enrolled and dials.
abbrev enrolled : Node memory_store
enrolled = node_run memory_store config shown enroll_shown fresh (enrolling (codes "zc_old") ∷ [])

enrolled_dials : enrolled.loop.phase ≡ dialling (codes "zc_old")
unfolding node_run node_step start_node start step on_bearer token_prefix bearer credential
    read_stored enroll enroll_loop on_granted
enrolled_dials = refl

new_is_not_old :
    (c : Credential)
    → (turn_of (codes "zc_new")).polled ≡ ok (granted c)
    → c.secret ≢ codes "zc_old"
new_is_not_old c e = λ clash. ground (arith, e, clash)

refused_never_dialled_example :
    (node_run memory_store config shown enroll_shown
      (node_step memory_store config shown enroll_shown enrolled (dials (err unauthorized)))
      (forgets ∷ enrolling (codes "zc_new") ∷ [])).loop.phase
    ≢ dialling (codes "zc_old")
unfolding refusal_of
refused_never_dialled_example =
    refused_never_dialled memory_store memory_store-StoreLaws memory_store-StoreOrigins config shown
      enroll_shown (some (codes "memory")) none (enrolling (codes "zc_old") ∷ []) (codes "zc_old")
      unauthorized (forgets ∷ enrolling (codes "zc_new") ∷ []) enrolled_dials refl
      (tt, ((new_is_not_old, tt), tt))

works : Succeeds memory_store
works = record { clears = λ s. refl; saves = λ c s. refl }

enrolled_holds :
    (enrolled.grant.held ≡ some (credential_of (codes "zc_old")))
    × ((memory_store.load enrolled.grant.stored).0 ≡ ok (some (credential_of (codes "zc_old"))))
    × (enrolled.loop.reenrolled_after_refusal ≡ false)
unfolding node_run node_step start_node start step on_bearer token_prefix bearer credential
    read_stored enroll enroll_loop on_granted
enrolled_holds = (refl, refl, refl)

new_prefix : token_prefix (codes "zc_new") ≡ some (codes "zc_new")
unfolding token_prefix
new_prefix = refl

revoked_node_returns_example :
    let new = credential_of (codes "zc_new") in
    let after =
      node_run memory_store config shown enroll_shown enrolled
        (dials (err unauthorized) ∷ forgets ∷ enrolling (codes "zc_new") ∷ dials (ok 7) ∷ []) in
    (after.loop.phase ≡ serving 7)
    × (after.loop.log ≡ connected 7 ∷ forgot_credential ∷ enrolled.loop.log)
    × (after.loop.reenrolled_after_refusal ≡ false)
    × (after.grant.held ≡ some new)
    × (after.grant.notices ≡ authorized_notice ∷ show_code ∷ enrolled.grant.notices)
    × (new.version ≡ credential_version → (memory_store.load after.grant.stored).0 ≡ ok (some new))
unfolding refusal_of
revoked_node_returns_example =
    revoked_node_returns memory_store memory_store-StoreLaws works config shown enroll_shown
      enrolled (credential_of (codes "zc_old")) (credential_of (codes "zc_new")) unauthorized 7
      (turn_of (codes "zc_new")) (codes "zc_new") refl refl new_prefix enrolled_dials
      enrolled_holds.2 enrolled_holds.0 enrolled_holds.1
