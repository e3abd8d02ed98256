-- ===== src/Main/Program.antt =====
-- A node that was given no credential, from its start on: what `main` assembles, run over the device
-- grant on the credential file.
use zyris_docker.Prelude.{
  ℕ, ◌≡◌, ◌≢◌, ◌⊎◌, inl, inr, refl, subst, Option, some, List, [], ◌∷◌, Result, ok, err, All,
}
use zyris_docker.Prelude.Text.{Text}
use zyris_docker.FilePath.{FilePath, normal, push}
use zyris_docker.FilePath.Display.{display}
use zyris_docker.Wire.{WireError}
use zyris_docker.Runtime.Credentials.{CredentialsError, Env}
use zyris_docker.Runtime.Credential.{Credential}
use zyris_docker.Runtime.Config.{RunConfig}
use zyris_docker.Runtime.Runner.{ConnectError, dialling}
use zyris_docker.Runtime.Slug.{file_name}
use zyris_docker.Runtime.Store.{CredentialStore, credential_dir, credential_version, for_server}
use zyris_docker.Runtime.Store.FileStore.{Files, file_store}
use zyris_docker.FileIo.{Call, LocalFileIo, gated}
use zyris_docker.FileIo.Confined.{with_path}
use zyris_docker.Enroll.{EnrollError}
use zyris_docker.Enroll.Source.{
  Source, device_grant, source, request_of, NothingGiven, source-device_grant,
}
use zyris_docker.Node.{Input, Node, start_node, node_run}
use zyris_docker.Node.Persisted.{Alone}
use zyris_docker.Node.OnDisk.{Holds, dialled_is_on_disk}
use zyris_docker.Main.Start.{
  Assembly, Begun, printed, failed, assembled, Host, built, with_source, assembly_of, start_up,
}
use zyris_docker.Main.Guards.{file_io-spares_credential}

module _ (host : Host) (build_node : Assembly → Result Text (Unit {0})) (env : Env) where
  abbrev source_of : RunConfig → Result CredentialsError Source
  source_of = source host.read_path host.machine_name host.platform env

  -- The credentials are those that `source` answers.
  abbrev Sourced : Begun → Type 0
  Sourced (assembled a) = source_of a.config ≡ ok a.creds
  Sourced (printed t) = Unit
  Sourced (failed e) = Unit

  built-Sourced :
      (a : Assembly) (r : Result Text (Unit {0}))
      → source_of a.config ≡ ok a.creds
      → Sourced (built host build_node a r)
  built-Sourced a (ok done) h = h
  built-Sourced a (err e) h = tt

  with_source-Sourced :
      (config : RunConfig) (r : Result CredentialsError Source)
      → source_of config ≡ r
      → Sourced (with_source host build_node env config r)
  unfolding assembly_of
  with_source-Sourced config (err e) h = tt
  with_source-Sourced config (ok creds) h = built-Sourced _ _ h

  start_up-Sourced : Sourced (start_up host build_node env)
  unfolding start_up
  start_up-Sourced = with_source-Sourced _ _ refl

module _ (host : Host) (build_node : Assembly → Result Text (Unit {0})) (env : Env) (a : Assembly)
    (started : start_up host build_node env ≡ assembled a) where
  abbrev pub secret_file : FilePath
  secret_file = for_server host.read_path env a.config.url a.config.profile

  -- A node that was given no credential enrolls, into the file of its deployment and profile.
  pub enrolls_into_file :
      NothingGiven host.read_path host.machine_name host.platform env
      → a.creds
        ≡ device_grant secret_file a.config.url
            (request_of host.read_path host.machine_name host.platform env a.config)
  enrolls_into_file bare =
      let answered =
        subst (Sourced host build_node env) started (start_up-Sourced host build_node env) in
      let asked =
        (source-device_grant host.read_path host.machine_name host.platform env a.config).1 bare in
      cc (answered, asked)

  module _ (encode : Credential → Result Text Text) (decode : Text → Result Text Credential)
      (umask_mode : ℕ) (shown : ConnectError → Text) (enroll_shown : EnrollError → Text) where
    abbrev pub program_store : CredentialStore
    program_store = file_store encode decode umask_mode secret_file

    -- What `main` runs.
    abbrev pub program_run : Option Text → Files → List (Input program_store) → Node program_store
    program_run described files =
        node_run program_store a.config shown enroll_shown
          (start_node program_store a.config shown enroll_shown described files)

    -- What a `file_io` call does beside the file: it is refused, or it is made at another path.
    abbrev pub Spares :
        FilePath → (FilePath → Option FilePath) → (inner : LocalFileIo) → Call → inner.Disk → Type 0
    Spares real later inner call disk =
        ((e : WireError) × (gated later a.file_gate inner call disk ≡ (err e, disk)))
        ⊎ ((p : FilePath) × (p ≢ push real (normal (file_name a.config.url a.config.profile)))
            × (gated later a.file_gate inner call disk
                ≡ inner.serve (with_path call (display p)) disk))

    -- A node that `main` starts with no credential in its environment, and whose credential
    -- directory resolves by then: it enrolls into the file of its deployment and profile;
    -- wherever its run has come, a secret that it dials with is that of a credential which
    -- that file holds, readable by its owner only, if it has the version that this build
    -- reads, so a process killed at any moment never loses a credential that the server has
    -- seen; and no `file_io` call of its server is made at the path of that file in what its
    -- directory resolved to, however the disk changes. No other process writes the file, and
    -- the serialisation reads back what it wrote.
    pub program_keeps_secret :
        ((c : Credential) → (bytes : Text) × (encode c ≡ ok bytes) × (decode bytes ≡ ok c))
        → NothingGiven host.read_path host.machine_name host.platform env
        → (real : FilePath) → host.canonicalize (credential_dir host.read_path env) ≡ some real
        → (later : FilePath → Option FilePath) (inner : LocalFileIo) (call : Call)
          (disk : inner.Disk) (described : Option Text) (files : Files)
          (inputs : List (Input program_store)) (secret : Text)
        → All (Alone program_store) inputs
        → let n = program_run described files inputs in
          n.loop.phase ≡ dialling secret
          → (a.creds
              ≡ device_grant secret_file a.config.url
                  (request_of host.read_path host.machine_name host.platform env a.config))
            × ((c : Credential) × (c.secret ≡ secret)
                × (c.version ≡ credential_version
                    → Holds encode decode umask_mode secret_file n.grant.stored.disk c))
            × Spares real later inner call disk
    unfolding push
    program_keeps_secret reads_back bare real resolved later inner call disk described files inputs
          secret alone p =
        (
          enrolls_into_file bare,
          dialled_is_on_disk encode decode umask_mode reads_back host.read_path env a.config.url
              a.config.profile a.config shown enroll_shown described files inputs secret alone p,
          elim (file_io-spares_credential host build_node env a real started resolved later inner
              call disk) [
                | inl refused ↦ inl refused
                | inr (q, apart, served) ↦ inr (
                  q,
                  (λ same. apart (normal (file_name a.config.url a.config.profile) ∷ [], same)),
                  served,
                )
              ],
        )
