-- ===== src/Runtime/Store/Tests.antt =====
-- A store of one file on a small disk, and the theorems there.
use zyris_docker.Prelude.{
  ◌%◌, ◌≡◌, ◌≢◌, ◌⊎◌, refl, true, false, none, some, List, [], ◌∷◌, Result, ok, err, map_err,
}
use zyris_docker.Prelude.Text.{Text, codes, text_eq}
use zyris_docker.FilePath.{FilePath, root_dir, normal, path_eq, component_eq, split_last, pop}
use zyris_docker.Runtime.Credentials.{IoError, other_kind}
use zyris_docker.Runtime.Credential.{Named, Credential}
use zyris_docker.Runtime.Store.Errors.{
  CredentialStoreError, is_discardable, credential_version, classify,
}
use zyris_docker.Runtime.Store.Disk.{
  File, Disk, put, Outcome, done, failed, returned, process_killed, run_calls, with_extension,
  file_stem, before_last_dot, temp_of, dir_calls, file_calls, save, load,
}
use zyris_docker.Runtime.Store.Load.{load_file_verdict}
use zyris_docker.Runtime.Store.Save.{save_atomic}

abbrev named : Named
named = record { id = codes "i"; name = codes "srv-a"; slug = codes "srv-a" }

abbrev credential_of : Text → Credential
credential_of secret = record {
  version = 2;
  secret = secret;
  system = named;
  program = named;
  scopes = [];
  owner_email = codes "e@example.com";
}

-- A serialisation that keeps the secret alone.
abbrev encode : Credential → Result Text Text
encode c = ok c.secret

abbrev decode : Text → Result Text Credential
decode bytes = ok (credential_of bytes)

abbrev path : FilePath
path = root_dir ∷ normal (codes "c") ∷ normal (codes "a.json") ∷ []

abbrev old_file : File
old_file = record { bytes = codes "zc_old"; mode = 0o600 }

abbrev exposed_file : File
exposed_file = record { bytes = codes "zc_old"; mode = 0o644 }

abbrev new_file : File
new_file = record { bytes = codes "zc_new"; mode = 0o600 }

abbrev old_disk : Disk
old_disk = put path (some old_file) (λ p. none)

apart : path_eq path (temp_of path) ≡ false
unfolding path_eq component_eq text_eq with_extension file_stem before_last_dot split_last
apart = refl

abbrev full_disk : IoError
full_disk = record { kind = other_kind; shown = codes "no space left on device" }

-- The disk is full after two bytes of the temporary file.
abbrev space_runs_out : List Outcome
space_runs_out = done ∷ done ∷ done ∷ done ∷ failed full_disk 2 ∷ []

abbrev all_done : List Outcome
all_done = done ∷ done ∷ done ∷ done ∷ done ∷ done ∷ done ∷ []

save_atomic_example :
    let (ended, after) =
      save encode decode 0o644 path (credential_of (codes "zc_new")) space_runs_out old_disk in
    ((after path ≡ old_disk path) × (ended ≢ returned (ok tt)))
    ⊎ ((after path ≡ some new_file) × ((ended ≡ returned (ok tt)) ⊎ (ended ≡ process_killed)))
save_atomic_example =
    save_atomic encode decode 0o644 path (credential_of (codes "zc_new")) (codes "zc_new") refl
      apart space_runs_out old_disk

all_done_returns :
    (save encode decode 0o644 path (credential_of (codes "zc_new")) all_done old_disk).0
    ≡ returned (ok tt)
unfolding save dir_calls file_calls run_calls pop split_last
all_done_returns = refl

load_file_verdict_example :
    let answer =
      map_err classify (load encode decode 0o644 path none none (λ p. some exposed_file)) in
    ((exposed_file.mode % 0o100 ≢ 0)
      × ((e : CredentialStoreError) × (answer ≡ err e) × (is_discardable e ≡ false)))
    ⊎ ((exposed_file.mode % 0o100 ≡ 0)
        × (((c : Credential) × (decode exposed_file.bytes ≡ ok c)
              × (c.version ≡ credential_version)
              × (answer ≡ ok (some c)))
            ⊎ ((e : CredentialStoreError) × (answer ≡ err e) × (is_discardable e ≡ true))))
load_file_verdict_example =
    load_file_verdict encode decode 0o644 path (λ p. some exposed_file) exposed_file refl
