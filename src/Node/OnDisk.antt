-- ===== src/Node/OnDisk.antt =====
-- A node whose store is the file of its deployment and profile.
use zyris_docker.Prelude.{
  ℕ, ◌%◌, ◌≡◌, ◌≢◌, Option, none, some, List, All, Result, ok, map_err, Option-cases, inl, inr,
}
use zyris_docker.Prelude.Text.{Text}
use zyris_docker.FilePath.{FilePath}
use zyris_docker.Runtime.Credentials.{Env}
use zyris_docker.Runtime.Credential.{Credential}
use zyris_docker.Runtime.Config.{RunConfig}
use zyris_docker.Runtime.Runner.{ConnectError, dialling}
use zyris_docker.Runtime.Store.{CredentialStore, credential_version, for_server, classify}
use zyris_docker.Runtime.Store.Disk.{File, Disk, load}
use zyris_docker.Runtime.Store.Load.{load_file_verdict}
use zyris_docker.Runtime.Store.FileStore.{Files, file_store}
use zyris_docker.Enroll.{EnrollError}
use zyris_docker.Enroll.FileStore.{file_store-StoreLaws}
use zyris_docker.Node.{Input, start_node, node_run}
use zyris_docker.Node.Persisted.{Alone, dialled_is_stored}

module _ (encode : Credential → Result Text Text) (decode : Text → Result Text Credential)
    (umask_mode : ℕ) where
  -- The file at the path holds this credential, and only its owner can open it.
  abbrev pub Holds : FilePath → Disk → Credential → Type 0
  Holds path disk c =
      (file : File) × (disk path ≡ some file) × (file.mode % 0o100 ≡ 0) × (decode file.bytes ≡ ok c)

  no_file :
      (path : FilePath) (disk : Disk) (c : Credential)
      → disk path ≡ none
      → map_err classify (load encode decode umask_mode path none none disk) ≢ ok (some c)
  unfolding load
  no_file path disk c e = rw (e, load) λ h. cc

  load-Holds :
      (path : FilePath) (disk : Disk) (c : Credential)
      → map_err classify (load encode decode umask_mode path none none disk) ≡ ok (some c)
      → Holds path disk c
  unfolding load
  load-Holds path disk c h = elim (Option-cases (disk path)) [
    | inl e ↦ absurd (no_file path disk c e h)
    | inr (file, e) ↦ elim (load_file_verdict encode decode umask_mode path disk file e) [
      | inl (_, (x, answer, _)) ↦ cc
      | inr (closed, inl (d, decoded, _, answer)) ↦ (file, e, closed, cc)
      | inr (_, inr (x, answer, _)) ↦ cc
    ]
  ]

  module _
      (reads_back : (c : Credential)
        → (bytes : Text) × (encode c ≡ ok bytes) × (decode bytes ≡ ok c))
      (read_path : Text → FilePath) (env : Env) (server_url profile : Text) (config : RunConfig)
      (shown : ConnectError → Text) (enroll_shown : EnrollError → Text) where
    abbrev path : FilePath
    path = for_server read_path env server_url profile

    abbrev store : CredentialStore
    store = file_store encode decode umask_mode path

    -- Wherever a run of a node over its credential file has come, as long as no other
    -- process writes to the file and the serialisation reads back what it wrote: a secret
    -- that the node dials with is that of a credential which the file holds, readable by its
    -- owner only, if it has the version that this build reads. So a process killed at any
    -- moment never loses a credential that the server has seen.
    pub dialled_is_on_disk :
        (described : Option Text) (files : Files) (inputs : List (Input store)) (secret : Text)
        → All (Alone store) inputs
        → let n =
            node_run store config shown enroll_shown
              (start_node store config shown enroll_shown described files)
              inputs in
          n.loop.phase ≡ dialling secret
          → (c : Credential) × (c.secret ≡ secret)
            × (c.version ≡ credential_version → Holds path n.grant.stored.disk c)
    dialled_is_on_disk described files inputs secret alone p =
        let (c, same, kept) =
          dialled_is_stored store
            (file_store-StoreLaws encode decode umask_mode reads_back read_path env server_url
              profile)
            config shown enroll_shown described files inputs secret alone p in
        (c, same, λ v. load-Holds path _ c (kept v))
