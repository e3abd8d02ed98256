-- ===== src/Enroll/FileStore.antt =====
-- The file store keeps the laws that the device grant relies on.
pub mod Encoding
mod Tests
use zyris_docker.Prelude.{
  ℕ, ◌≡◌, refl, sym, ap, ◌∙◌, Bool, false, Option, none, some, Result, ok, err, map_err,
}
use zyris_docker.Prelude.Text.{Text}
use zyris_docker.FilePath.{FilePath, path_eq}
use zyris_docker.FilePath.Clean.{path_eq_refl}
use zyris_docker.Runtime.Credentials.{Env}
use zyris_docker.Runtime.Credential.{Credential}
use zyris_docker.Runtime.Store.{credential_version, for_server, classify}
use zyris_docker.Runtime.Store.Disk.{
  Disk, Ended, returned, process_killed, temp_of, save, load, clear,
}
use zyris_docker.Runtime.Store.Save.{load-save}
use zyris_docker.Runtime.Store.Paths.{for_server-temp}
use zyris_docker.Runtime.Store.FileStore.{Files, next_outcomes, later, answer_of, file_store}
use zyris_docker.Enroll.Stored.{StoreLaws}

succeeded : (ended : Ended) → answer_of ended ≡ ok tt → ended ≡ returned (ok tt)
succeeded (returned (ok u)) h = refl
succeeded (returned (err e)) h = cc
succeeded process_killed h = cc

pub load-clear :
    (encode : Credential → Result Text Text) (decode : Text → Result Text Credential)
    (umask_mode : ℕ) (path : FilePath) (disk : Disk)
    → map_err classify (load encode decode umask_mode path none none (clear path none disk).1)
      ≡ ok none
unfolding clear load
load-clear encode decode umask_mode path disk = rw (load, path_eq_refl path) refl

module _ (encode : Credential → Result Text Text) (decode : Text → Result Text Credential)
    (umask_mode : ℕ)
    (reads_back : (c : Credential)
      → (bytes : Text) × (encode c ≡ ok bytes) × (decode bytes ≡ ok c)) where
  -- The file of any deployment and profile is a store that keeps `StoreLaws`, however its saves go, if
  -- the serialisation reads back what it wrote and reads, queries and removals of the file succeed.
  pub file_store-StoreLaws :
      (read_path : Text → FilePath) (env : Env) (server_url profile : Text)
      → StoreLaws
          (file_store encode decode umask_mode (for_server read_path env server_url profile))
  file_store-StoreLaws read_path env server_url profile = record {
    load-save = saved;
    load-load = λ before. refl;
    load-clear = cleared;
  }
    where
      path : FilePath
      path = for_server read_path env server_url profile

      saved :
          (c : Credential) (before after : Files)
          → c.version ≡ credential_version
          → (file_store encode decode umask_mode path).save c before ≡ (ok tt, after)
          → ((file_store encode decode umask_mode path).load after).0 ≡ ok (some c)
      saved c before after v e =
          let (bytes, encoded, decoded) = reads_back c in
          let outcomes = next_outcomes before.saves in
          let done = succeeded _ (ap (λ r. r.0) e) in
          let found =
            load-save encode decode umask_mode path c bytes encoded
              (for_server-temp read_path env server_url profile) outcomes before.disk decoded v
              done in
          let same : (save encode decode umask_mode path c outcomes before.disk).1 ≡ after.disk =
            ap (λ r. r.1.disk) e in
          rw⁻¹ same rw found refl

      cleared :
          (before after : Files)
          → (file_store encode decode umask_mode path).clear before ≡ (ok tt, after)
          → ((file_store encode decode umask_mode path).load after).0 ≡ ok none
      cleared before after e =
          let same : (clear path none before.disk).1 ≡ after.disk = ap (λ r. r.1.disk) e in
          rw⁻¹ same (load-clear encode decode umask_mode path before.disk)
