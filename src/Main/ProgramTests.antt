-- ===== src/Main/ProgramTests.antt =====
-- A node that starts with nothing in its environment and over an empty disk, and enrolls.
use zyris_docker.Prelude.{◌≡◌, refl, none, some, [], ◌∷◌, ok, Result}
use zyris_docker.Prelude.Text.{Text, codes}
use zyris_docker.FilePath.{components}
use zyris_docker.Runtime.Credentials.{
  Env, nonblank, nonempty, static_from_env, token_file_from_env, token_prefix,
}
use zyris_docker.Runtime.Config.{RunConfig, from_env}
use zyris_docker.Runtime.Credential.{Named, Credential}
use zyris_docker.Runtime.Runner.{ConnectError, dialling, start, on_bearer, step}
use zyris_docker.Runtime.Store.{CredentialStore, credential_dir, credential_version, for_server}
use zyris_docker.Runtime.Store.Disk.{load, save}
use zyris_docker.Runtime.Store.FileStore.{Files}
use zyris_docker.FileIo.{Call, read, LocalFileIo}
use zyris_docker.Enroll.{
  EnrollError, granted, bearer, credential, read_stored, enroll, enroll_loop, on_granted,
}
use zyris_docker.Enroll.FileStore.Encoding.{encode, decode, reads_back}
use zyris_docker.Enroll.Source.{device_grant, source, leftover, request_of}
use zyris_docker.Node.{Input, asks, Node, start_node, node_step, node_run}
use zyris_docker.Node.OnDisk.{Holds}
use zyris_docker.Main.Start.{Assembly, Host, assembled, assembly_of, start_up}
use zyris_docker.Main.Program.{
  secret_file, program_store, program_run, Spares, program_keeps_secret,
}

abbrev host : Host
host = record {
  read_path = components;
  canonicalize = λ p. some p;
  server_url = codes "wss://a";
  machine_name = none;
  platform = codes "linux";
  version = codes "0.1.0";
}

abbrev builds : Assembly → Result Text (Unit {0})
builds a = ok tt

abbrev bare : Env
bare name = none

abbrev config : RunConfig
config = from_env (codes "wss://a") none bare

abbrev assembly : Assembly
assembly = assembly_of host builds bare config (
    device_grant (for_server components bare config.url config.profile) config.url
      (request_of components none (codes "linux") bare config))

bare_starts : start_up host builds bare ≡ assembled assembly
unfolding start_up source static_from_env nonblank token_file_from_env leftover
bare_starts = refl

abbrev named : Named
named = record { id = codes "i"; name = codes "srv-a"; slug = codes "srv-a" }

abbrev granted_credential : Credential
granted_credential = record {
  version = 2;
  secret = codes "zc_new";
  system = named;
  program = named;
  scopes = [];
  owner_email = codes "e@example.com";
}

abbrev shown : ConnectError → Text
shown e = codes "refused"

abbrev enroll_shown : EnrollError → Text
enroll_shown e = codes "enrollment failed"

abbrev empty_disk : Files
empty_disk = record { disk = λ p. none; saves = [] }

abbrev store : CredentialStore
store = program_store host builds bare assembly bare_starts encode decode 0o644 shown enroll_shown

abbrev enrolling : Input store
enrolling = asks (ok tt) (record { polled = ok (granted granted_credential); renewed = ok tt } ∷ [])

abbrev enrolled : Node store
enrolled =
    program_run host builds bare assembly bare_starts encode decode 0o644 shown enroll_shown
      (some (codes "file")) empty_disk (enrolling ∷ [])

enrolled_dials : enrolled.loop.phase ≡ dialling (codes "zc_new")
unfolding node_run node_step start_node start step on_bearer token_prefix bearer credential
    read_stored enroll enroll_loop on_granted load save encode for_server components
enrolled_dials = refl

abbrev echo_files : LocalFileIo
echo_files = record { Disk = Unit {0}; Reply = Call; serve = λ call disk. (ok call, disk) }

program_keeps_secret_example :
    (assembly.creds
      ≡ device_grant
          (secret_file host builds bare assembly bare_starts)
          config.url
          (request_of components none (codes "linux") bare config))
    × ((c : Credential) × (c.secret ≡ codes "zc_new")
        × (c.version ≡ credential_version
            → Holds encode decode 0o644
                (secret_file host builds bare assembly bare_starts)
                enrolled.grant.stored.disk
                c))
    × Spares host builds bare assembly bare_starts encode decode 0o644 shown enroll_shown
        (credential_dir components bare)
        (λ p. some p)
        echo_files
        (read (codes "etc/hosts") none none)
        tt
unfolding nonblank nonempty from_env assembly_of
program_keeps_secret_example =
    program_keeps_secret host builds bare assembly bare_starts encode decode 0o644 shown
      enroll_shown reads_back (refl, refl, refl, refl) (credential_dir components bare) refl
      (λ p. some p) echo_files (read (codes "etc/hosts") none none) tt (some (codes "file"))
      empty_disk (enrolling ∷ []) (codes "zc_new") (tt, tt) enrolled_dials
