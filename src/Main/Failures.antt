-- ===== src/Main/Failures.antt =====
-- Why a node exits before it dials, and with which status.
use zyris_docker.Prelude.{
  ◌≡◌, ◌⊎◌, inl, inr, refl, false, Bool-cases, Option, none, some, Result, ok, err, ◌>>=◌, arith,
}
use zyris_docker.Prelude.Text.{Text, codes, trim, is_empty, starts_with}
use zyris_docker.FilePath.{FilePath}
use zyris_docker.Runtime.Credentials.{
  CredentialsError, needs_operator, fatal, Env, nonblank, nonempty, credential_prefix,
  validate_credential, not_a_credential, static_token, static_from_env, token_file_from_env,
  token_file,
}
use zyris_docker.Runtime.Config.{RunConfig, from_env}
use zyris_docker.Runtime.Runner.{RunError, credentials, build}
use zyris_docker.Enroll.Source.{
  Source, source, leftover, leftover_message, given, given_directly, mounted, enrolling,
}
use zyris_docker.Main.Start.{
  Assembly, failed, main_status, Host, assembly_of, built, with_source, start_up,
}

-- `$ZYRIS_CREDENTIAL` holds something that is no credential.
abbrev pub BadCredential : Env → Type 0
BadCredential env =
    (raw : Text) × (nonblank (env (codes "ZYRIS_CREDENTIAL")) ≡ some raw)
    × (starts_with (trim raw) credential_prefix ≡ false)

-- No credential is given, and a variable that an earlier image read is.
abbrev pub Leftover : Env → Type 0
Leftover env =
    (nonblank (env (codes "ZYRIS_CREDENTIAL")) ≡ none)
    × (nonempty (env (codes "ZYRIS_CREDENTIAL_FILE")) ≡ none)
    × ((name : Text) × (leftover (λ name. given (nonempty (env name))) ≡ some name))

nonblank-some : (o : Option Text) (raw : Text) → nonblank o ≡ some raw → is_empty (trim raw) ≡ false
unfolding nonblank
nonblank-some none raw h = cc
nonblank-some (some v) raw h = elim (Bool-cases (is_empty (trim v))) [
  | inl e ↦ ground (arith, e)
  | inr e ↦ ground (arith, e)
]

validate_fails :
    (raw origin : Text) (e : CredentialsError)
    → is_empty (trim raw) ≡ false
    → validate_credential raw origin ≡ err e
    → (starts_with (trim raw) credential_prefix ≡ false) × (e ≡ fatal (not_a_credential origin))
unfolding validate_credential
validate_fails raw origin e full h = elim (Bool-cases (starts_with (trim raw) credential_prefix)) [
  | inl s ↦ ground (arith, full, s)
  | inr s ↦ (s, ground (arith, full, s))
]

module _ (read_path : Text → FilePath) (machine_name : Option Text) (platform : Text) (env : Env)
    (config : RunConfig) where
  -- Why there is no credential source, and the shade of the error.
  abbrev NoSource : CredentialsError → Type 0
  NoSource e =
      (BadCredential env × ((m : Text) × (e ≡ fatal m)))
      ⊎ (Leftover env × ((m : Text) × (e ≡ needs_operator m)))

  enrolling_fails :
      (found : Option Text) (e : CredentialsError)
      → enrolling read_path machine_name platform env config found ≡ err e
      → (name : Text) × (found ≡ some name) × (e ≡ needs_operator (leftover_message name))
  enrolling_fails none e h = cc
  enrolling_fails (some name) e h = (name, refl, cc)

  mounted_fails :
      (file : Option Text) (e : CredentialsError)
      → nonblank (env (codes "ZYRIS_CREDENTIAL")) ≡ none
      → nonempty (env (codes "ZYRIS_CREDENTIAL_FILE")) ≡ file
      → mounted read_path machine_name platform env config (token_file read_path file) ≡ err e
      → NoSource e
  mounted_fails (some v) e no_credential no_file h = cc
  mounted_fails none e no_credential no_file h =
      let (name, found, message) = enrolling_fails _ e h in
      inr ((no_credential, no_file, (name, found)), (leftover_message name, message))

  token_fails :
      (r : Result CredentialsError Text) (origin : Text) (e : CredentialsError)
      → given_directly read_path machine_name platform env config
          (r >>= λ token. ok (some (record { token = token; source = origin })))
        ≡ err e
      → r ≡ err e
  token_fails (ok token) origin e h = cc
  token_fails (err x) origin e h = cc

  direct_fails :
      (raw : Option Text) (e : CredentialsError)
      → nonblank (env (codes "ZYRIS_CREDENTIAL")) ≡ raw
      → given_directly read_path machine_name platform env config (static_token raw) ≡ err e
      → NoSource e
  unfolding token_file_from_env
  direct_fails none e given_none h = mounted_fails _ e given_none refl h
  direct_fails (some raw) e given_raw h =
      let (bad, message) =
        validate_fails raw (codes "ZYRIS_CREDENTIAL") e (nonblank-some _ raw given_raw)
          (token_fails _ _ e h) in
      inl ((raw, given_raw, bad), (not_a_credential (codes "ZYRIS_CREDENTIAL"), message))

  source_fails :
      (e : CredentialsError)
      → source read_path machine_name platform env config ≡ err e
      → NoSource e
  unfolding source static_from_env
  source_fails e h = direct_fails _ e refl h

module _ (host : Host) (build_node : Assembly → Result Text (Unit {0})) where
  built_fails :
      (a : Assembly) (r : Result Text (Unit {0})) (e : RunError)
      → built host build_node a r ≡ failed e
      → (m : Text) × (r ≡ err m) × (e ≡ build m)
  built_fails a (ok done) e h = cc
  built_fails a (err m) e h = (m, refl, cc)

  abbrev Why : Env → RunError → Result RunError (Unit {0}) → Type 0
  Why env e outcome =
      (BadCredential env × (main_status (failed e) outcome ≡ 1))
      ⊎ (Leftover env × (main_status (failed e) outcome ≡ 2))
      ⊎ ((a : Assembly) × (m : Text) × (build_node a ≡ err m)
          × (main_status (failed e) outcome ≡ 2))

  source_failure :
      (env : Env) (x : CredentialsError) (e : RunError) (outcome : Result RunError (Unit {0}))
      → NoSource host.read_path host.machine_name host.platform env
          (from_env host.server_url host.machine_name env)
          x
      → credentials x ≡ e
      → Why env e outcome
  unfolding main_status
  source_failure env x e outcome (inl (bad, (m, message))) same =
      inl (bad, rw⁻¹ same rw message refl)
  source_failure env x e outcome (inr (old, (m, message))) same =
      inr (inl (old, rw⁻¹ same rw message refl))

  with_source_failed :
      (env : Env) (e : RunError) (outcome : Result RunError (Unit {0}))
      (r : Result CredentialsError Source)
      → let config = from_env host.server_url host.machine_name env in
        source host.read_path host.machine_name host.platform env config ≡ r
        → with_source host build_node env config r ≡ failed e
        → Why env e outcome
  unfolding main_status
  with_source_failed env e outcome (ok creds) found h =
      let config = from_env host.server_url host.machine_name env in
      let a = assembly_of host build_node env config creds in
      let (m, failure, message) = built_fails a (build_node a) e h in
      inr (inr (a, m, failure, rw message refl))
  with_source_failed env e outcome (err x) missing h =
      let config = from_env host.server_url host.machine_name env in
      source_failure env x e outcome
        (source_fails host.read_path host.machine_name host.platform env config x missing) (cc)

  -- Where `main` fails before it runs the node: it exits with status 1 because
  -- `$ZYRIS_CREDENTIAL` holds something that is no credential; or with status 2 because no
  -- credential is given and a variable that an earlier image read is still set, or because the
  -- node could not be built.
  pub start_up-failed :
      (env : Env) (e : RunError) (outcome : Result RunError (Unit {0}))
      → start_up host build_node env ≡ failed e
      → (BadCredential env × (main_status (failed e) outcome ≡ 1))
        ⊎ (Leftover env × (main_status (failed e) outcome ≡ 2))
        ⊎ ((a : Assembly) × (m : Text) × (build_node a ≡ err m)
            × (main_status (failed e) outcome ≡ 2))
  unfolding start_up
  start_up-failed env e outcome h = with_source_failed env e outcome _ refl h
