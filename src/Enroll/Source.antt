-- ===== src/Enroll/Source.antt =====
-- `source` of src/enroll.rs: where the credential comes from.
use zyris_docker.Prelude.{
  ◌≡◌, ◌↔◌, refl, sym, Bool, true, false, Option, none, some, List, [], ◌++◌, subst, Option-cases,
  Result-cases, inl, inr, if◌then◌else◌, Result, ok, err,
}
use zyris_docker.Prelude.Text.{Text, codes}
use zyris_docker.FilePath.{FilePath}
use zyris_docker.Runtime.Credentials.{
  CredentialsError, needs_operator, Env, nonblank, nonempty, StaticToken, static_from_env,
  TokenFile, token_file_from_env, validate_credential,
}
use zyris_docker.Runtime.Config.{RunConfig, or_else}
use zyris_docker.Runtime.Store.{for_server}

-- `zyris::EnrollRequest`
pub record EnrollRequest : Type 0 where
  pub program : Text
  pub system_hint : Text
  pub platform : Text
  pub scopes : List Text

-- The `Arc<dyn Credentials>` that `source` answers.
pub data Source : Type 0 where
  static_source : StaticToken → Source
  file_source : TokenFile → Source
  -- The credential file's path, the server's URL and the request.
  device_grant : FilePath → Text → EnrollRequest → Source

-- `leftover`
unfoldable pub leftover : (Text → Bool) → Option Text
leftover is_set =
    if is_set (codes "ZYRIS_NODE_TOKEN")
    then some (codes "ZYRIS_NODE_TOKEN")
    else if is_set (codes "ZYRIS_NODE_TOKEN_FILE")
    then some (codes "ZYRIS_NODE_TOKEN_FILE")
    else none

unfoldable pub leftover_message : Text → Text
leftover_message name =
    name
    ++ codes
        " is no longer read: node tokens are gone. Remove it and either let this node enroll itself (approve the printed code at /settings/zyris → Enter a code in Attacca) or pass an existing credential as ZYRIS_CREDENTIAL_FILE or ZYRIS_CREDENTIAL"

-- `is_some_and(|v| !v.is_empty())`
abbrev pub given : Option Text → Bool
given none = false
given (some v) = true

module _ (read_path : Text → FilePath) (machine_name : Option Text) (platform : Text)
    (env : Env) where
  -- What a node that was given no credential asks to be enrolled as.
  unfoldable pub request_of : RunConfig → EnrollRequest
  request_of config = record {
    program = codes "zyris-docker";
    system_hint = or_else machine_name [];
    platform = platform;
    scopes = config.scopes;
  }

  abbrev pub enrolling : RunConfig → Option Text → Result CredentialsError Source
  enrolling config (some name) = err (needs_operator (leftover_message name))
  enrolling config none = ok (
      device_grant (for_server read_path env config.url config.profile) config.url
        (request_of config))

  abbrev pub mounted : RunConfig → Option TokenFile → Result CredentialsError Source
  mounted config (some file) = ok (file_source file)
  mounted config none = enrolling config (leftover (λ name. given (nonempty (env name))))

  abbrev pub given_directly :
      RunConfig → Result CredentialsError (Option StaticToken) → Result CredentialsError Source
  given_directly config (err e) = err e
  given_directly config (ok (some token)) = ok (static_source token)
  given_directly config (ok none) = mounted config (token_file_from_env read_path env)

  -- `source`
  unfoldable pub source : RunConfig → Result CredentialsError Source
  unfolding leftover
  source config = given_directly config (static_from_env env)

  abbrev pub NothingGiven : Type 0
  NothingGiven =
      (nonblank (env (codes "ZYRIS_CREDENTIAL")) ≡ none)
      × (nonempty (env (codes "ZYRIS_CREDENTIAL_FILE")) ≡ none)
      × (nonempty (env (codes "ZYRIS_NODE_TOKEN")) ≡ none)
      × (nonempty (env (codes "ZYRIS_NODE_TOKEN_FILE")) ≡ none)

  abbrev IsDevice : Result CredentialsError Source → Type 0
  IsDevice (ok (static_source token)) = ⊥
  IsDevice (ok (file_source file)) = ⊥
  IsDevice (ok (device_grant path url request)) = Unit
  IsDevice (err e) = ⊥

  source-IsDevice : (config : RunConfig) → IsDevice (source config) → NothingGiven
  unfolding source static_from_env token_file_from_env leftover
  source-IsDevice config = elim (Option-cases (nonblank (env (codes "ZYRIS_CREDENTIAL")))) [
    | inr (raw, a) ↦ elim (Result-cases (validate_credential raw (codes "ZYRIS_CREDENTIAL"))) [
      | inl (token, e) ↦ rw (a, e) (λ h. absurd h)
      | inr (x, e) ↦ rw (a, e) (λ h. absurd h)
    ]
    | inl a ↦ elim (Option-cases (nonempty (env (codes "ZYRIS_CREDENTIAL_FILE")))) [
      | inr (v, b) ↦ rw (a, b) (λ h. absurd h)
      | inl b ↦ elim (Option-cases (nonempty (env (codes "ZYRIS_NODE_TOKEN")))) [
        | inr (v, c) ↦ rw (a, b, c) (λ h. absurd h)
        | inl c ↦ elim (Option-cases (nonempty (env (codes "ZYRIS_NODE_TOKEN_FILE")))) [
          | inr (v, d) ↦ rw (a, b, c, d) (λ h. absurd h)
          | inl d ↦ λ h. (a, b, c, d)
        ]
      ]
    ]
  ]

  -- A node asks a person for a credential exactly when the environment gives it none: no
  -- `$ZYRIS_CREDENTIAL` that is not blank, no `$ZYRIS_CREDENTIAL_FILE`, and neither of the variables
  -- that an earlier image read; the credential is then kept in the file of the deployment and profile.
  pub source-device_grant :
      (config : RunConfig)
      → (source config
          ≡ ok (
              device_grant
                (for_server read_path env config.url config.profile)
                config.url
                (request_of config)))
        ↔ NothingGiven
  unfolding source static_from_env token_file_from_env leftover
  source-device_grant config = (λ e. source-IsDevice config (subst IsDevice (sym e) tt), asks)
    where
      asks :
          NothingGiven
          → source config
            ≡ ok (
                device_grant
                  (for_server read_path env config.url config.profile)
                  config.url
                  (request_of config))
      asks (a, b, c, d) = rw (a, b, c, d) refl
