-- ===== src/Main/StartTests.antt =====
-- Nodes that start, and nodes that do not.
use zyris_docker.Prelude.{
  ◌≡◌, ◌⊎◌, refl, true, false, inl, inr, none, some, [], ◌∷◌, ok, err, Result, if◌then◌else◌,
}
use zyris_docker.Prelude.Text.{
  Text, codes, text_eq, is_empty, starts_with, trim, trim_matches, is_whitespace,
}
use zyris_docker.FilePath.{FilePath, root_dir, normal, components, path_starts_with, component_eq}
use zyris_docker.FilePath.Clean.{IsUnder, IsName, starts_with_of_IsUnder}
use zyris_docker.FilePath.Display.{display}
use zyris_docker.Wire.{WireError}
use zyris_docker.Runtime.Credentials.{
  Env, nonblank, fatal, validate_credential, static_from_env, token_file_from_env, not_a_credential,
}
use zyris_docker.Runtime.Config.{RunConfig, from_env}
use zyris_docker.Runtime.Runner.{RunError, credentials}
use zyris_docker.Runtime.Store.{credential_dir, for_server}
use zyris_docker.Gate.{new_gate}
use zyris_docker.Config.{config_from_env}
use zyris_docker.Main.{resolve_roots}
use zyris_docker.FileIo.{Call, read, remove, LocalFileIo, gated}
use zyris_docker.FileIo.Above.{remove_above}
use zyris_docker.FileIo.Confined.{with_path}
use zyris_docker.Enroll.Source.{Source, device_grant, source, leftover, request_of}
use zyris_docker.Main.Start.{
  Assembly, Host, assembled, failed, assembly_of, start_up, main, main_status, printed,
}
use zyris_docker.Main.Failures.{BadCredential, Leftover, start_up-failed}
use zyris_docker.Main.Guards.{file_io-spares_credential}

abbrev host : Host
host = record {
  read_path = components;
  canonicalize = λ p. some p;
  server_url = codes "wss://a";
  machine_name = none;
  platform = codes "linux";
  version = codes "0.1.0";
}

abbrev builds : Assembly → Result Text (Unit {0})
builds a = ok tt

abbrev bare : Env
bare name = none

abbrev config : RunConfig
config = from_env (codes "wss://a") none bare

abbrev enrolling : Source
enrolling =
    device_grant (for_server components bare config.url config.profile) config.url
      (request_of components none (codes "linux") bare config)

abbrev assembly : Assembly
assembly = assembly_of host builds bare config enrolling

bare_starts : start_up host builds bare ≡ assembled assembly
unfolding start_up source static_from_env nonblank token_file_from_env leftover
bare_starts = refl

abbrev echo_files : LocalFileIo
echo_files = record { Disk = Unit {0}; Reply = Call; serve = λ call disk. (ok call, disk) }

file_io-spares_credential_example :
    ((e : WireError) × (gated
          (λ p. some p)
          assembly.file_gate
          echo_files
          (read (codes "etc/hosts") none none)
          tt
        ≡ (err e, tt)))
    ⊎ ((p : FilePath) × (¬ IsUnder p (credential_dir components bare))
        × (gated (λ p. some p) assembly.file_gate echo_files (read (codes "etc/hosts") none none) tt
            ≡ echo_files.serve (with_path (read (codes "etc/hosts") none none) (display p)) tt))
file_io-spares_credential_example =
    file_io-spares_credential host builds bare assembly (credential_dir components bare) bare_starts
      refl (λ p. some p) echo_files (read (codes "etc/hosts") none none) tt

abbrev state_parent : FilePath
state_parent = root_dir ∷ normal (codes "var") ∷ normal (codes "lib") ∷ []

var-IsName : IsName (codes "var")
unfolding text_eq is_empty
var-IsName = record {
  nonempty = refl;
  not_dot = refl;
  not_dotdot = refl;
  no_slash = (refl, (refl, (refl, tt)));
}

lib-IsName : IsName (codes "lib")
unfolding text_eq is_empty
lib-IsName = record {
  nonempty = refl;
  not_dot = refl;
  not_dotdot = refl;
  no_slash = (refl, (refl, (refl, tt)));
}

-- A node with nothing in its environment passes on the removal of the directory above the one that
-- holds its credential.
remove_above_example :
    gated (λ p. some p) assembly.file_gate echo_files (remove (display state_parent) (some true)) tt
    ≡ echo_files.serve (remove (display state_parent) (some true)) tt
unfolding assembly_of new_gate resolve_roots config_from_env nonblank credential_dir components
    path_starts_with component_eq text_eq
remove_above_example =
    remove_above (λ p. some p) assembly.file_gate echo_files state_parent
      (credential_dir components bare) (normal (codes "zyris-docker")) [] (some true) tt
      (var-IsName, (lib-IsName, tt)) refl
      (inl (normal (codes "var") ∷ normal (codes "lib") ∷ [], refl)) refl
      (
        inr (λ u.
            let e : false ≡ true =
              starts_with_of_IsUnder state_parent (components (codes "/run/secrets")) u in
            cc),
        (
          inr (λ u.
              let e : false ≡ true =
                starts_with_of_IsUnder state_parent (components (codes "/var/run/secrets")) u in
              cc),
          (inl refl, tt),
        ),
      )

-- An API key in place of a credential.
abbrev with_key : Env
with_key name = if text_eq name (codes "ZYRIS_CREDENTIAL") then some (codes "atk_1") else none

abbrev key_refused : RunError
key_refused = credentials (fatal (not_a_credential (codes "ZYRIS_CREDENTIAL")))

key_fails : start_up host builds with_key ≡ failed key_refused
unfolding start_up source static_from_env nonblank validate_credential text_eq is_empty starts_with
    trim trim_matches is_whitespace
key_fails = refl

start_up-failed_example :
    (BadCredential with_key × (main_status (failed key_refused) (ok tt) ≡ 1))
    ⊎ (Leftover with_key × (main_status (failed key_refused) (ok tt) ≡ 2))
    ⊎ ((a : Assembly) × (m : Text) × (builds a ≡ err m)
        × (main_status (failed key_refused) (ok tt) ≡ 2))
start_up-failed_example = start_up-failed host builds with_key key_refused (ok tt) key_fails

version_is_printed :
    main host builds (codes "zyris-docker" ∷ codes "-V" ∷ []) bare
    ≡ printed (codes "zyris-docker 0.1.0")
unfolding main text_eq
version_is_printed = refl
