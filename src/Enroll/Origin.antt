-- ===== src/Enroll/Origin.antt =====
-- Where the credential that a store reads back can come from.
use zyris_docker.Prelude.{
  ℕ, false, ◌≡◌, ◌⊎◌, refl, sym, ap, ◌∙◌, Option, none, some, List, inl, inr, Result, ok, err,
  map_err, arith,
}
use zyris_docker.Prelude.Text.{Text}
use zyris_docker.FilePath.{FilePath, path_eq}
use zyris_docker.Runtime.Credentials.{Env}
use zyris_docker.Runtime.Credential.{Credential}
use zyris_docker.Runtime.Store.{CredentialStore, memory_store, StoreError, classify, for_server}
use zyris_docker.Runtime.Store.Disk.{Disk, Outcome, temp_of, save, load, load_file, parse, clear}
use zyris_docker.Runtime.Store.Save.{save_atomic}
use zyris_docker.Runtime.Store.Paths.{for_server-temp}
use zyris_docker.Runtime.Store.FileStore.{Files, next_outcomes, file_store}
use zyris_docker.Enroll.FileStore.{load-clear}

-- A store makes no credential up: what it reads back after a save, whatever came of it, is what was
-- saved or what was there, and a removal brings nothing back.
pub record StoreOrigins (store : CredentialStore) : Type 0 where
  pub load-save_origin :
      (c d : Credential) (before : store.State)
      → (store.load (store.save c before).1).0 ≡ ok (some d)
      → (d ≡ c) ⊎ ((store.load before).0 ≡ ok (some d))
  pub load-clear_origin :
      (d : Credential) (before : store.State)
      → (store.load (store.clear before).1).0 ≡ ok (some d)
      → (store.load before).0 ≡ ok (some d)

pub memory_store-StoreOrigins : StoreOrigins memory_store
memory_store-StoreOrigins = record {
  load-save_origin = λ c d before e. inl (cc);
  load-clear_origin = λ d before e. cc;
}

abbrev Read : Type 0
Read = Result StoreError (Option Credential)

read_some : (r : Read) (d : Credential) → map_err classify r ≡ ok (some d) → r ≡ ok (some d)
read_some (ok c) d e = cc
read_some (err x) d e = cc

module _ (encode : Credential → Result Text Text) (decode : Text → Result Text Credential)
    (umask_mode : ℕ) where
  parse_origin :
      (bytes : Text) (c d : Credential)
      → decode bytes ≡ ok c
      → parse encode decode umask_mode bytes ≡ ok (some d)
      → d ≡ c
  unfolding parse
  parse_origin bytes c d decoded e = ground (arith, decoded)

  same_load :
      (path : FilePath) (before after : Disk)
      → after path ≡ before path
      → load encode decode umask_mode path none none after
        ≡ load encode decode umask_mode path none none before
  unfolding load
  same_load path before after h = rw (h, load) refl

  new_load :
      (path : FilePath) (bytes : Text) (disk : Disk)
      → disk path ≡ some (record { bytes = bytes; mode = 0o600 })
      → load encode decode umask_mode path none none disk ≡ parse encode decode umask_mode bytes
  unfolding load load_file
  new_load path bytes disk h = rw (h, load) refl

  module _
      (reads_back : (c : Credential)
        → (bytes : Text) × (encode c ≡ ok bytes) × (decode bytes ≡ ok c))
      (path : FilePath) (apart : path_eq path (temp_of path) ≡ false) where
    saved_origin :
        (outcomes : List Outcome) (disk : Disk) (c d : Credential)
        → load encode decode umask_mode path none none
            (save encode decode umask_mode path c outcomes disk).1
          ≡ ok (some d)
        → (d ≡ c) ⊎ (load encode decode umask_mode path none none disk ≡ ok (some d))
    saved_origin outcomes disk c d e =
        let (bytes, encoded, decoded) = reads_back c in
        let after : Disk = (save encode decode umask_mode path c outcomes disk).1 in
        elim (save_atomic encode decode umask_mode path c bytes encoded apart outcomes disk) [
          | inl (same, _) ↦ inr (sym (same_load path disk after same) ∙ e)
          | inr (new, _) ↦
              inl (parse_origin bytes c d decoded (sym (new_load path bytes after new) ∙ e))
        ]

  -- The file of a deployment and profile makes no credential up, however its saves go.
  pub file_store-StoreOrigins :
      ((c : Credential) → (bytes : Text) × (encode c ≡ ok bytes) × (decode bytes ≡ ok c))
      → (read_path : Text → FilePath) (env : Env) (server_url profile : Text)
      → StoreOrigins
          (file_store encode decode umask_mode (for_server read_path env server_url profile))
  file_store-StoreOrigins reads_back read_path env server_url profile = record {
    load-save_origin = saved;
    load-clear_origin = λ d before e. absurd (nothing d before e);
  }
    where
      path : FilePath
      path = for_server read_path env server_url profile

      read : Disk → Result StoreError (Option Credential)
      read disk = load encode decode umask_mode path none none disk

      saved :
          (c d : Credential) (before : Files)
          → map_err classify (
              read
                (save encode decode umask_mode path c (next_outcomes before.saves) before.disk).1)
            ≡ ok (some d)
          → (d ≡ c) ⊎ (map_err classify (read before.disk) ≡ ok (some d))
      saved c d before e =
          elim (saved_origin reads_back path (for_server-temp read_path env server_url profile)
            (next_outcomes before.saves) before.disk c d (read_some _ d e)) [
              | inl same ↦ inl same
              | inr old ↦ inr (ap (map_err classify) old)
            ]

      nothing :
          (d : Credential) (before : Files)
          → map_err classify (read (clear path none before.disk).1) ≡ ok (some d)
          → ⊥
      nothing d before e = cc (load-clear encode decode umask_mode path before.disk, e)
