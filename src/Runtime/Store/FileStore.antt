-- ===== src/Runtime/Store/FileStore.antt =====
-- `FileCredentialStore` as a `CredentialStore`: a disk, and what the system answers to the saves to
-- come. Reads, queries and removals are taken to succeed.
use zyris_docker.Prelude.{ℕ, none, List, [], ◌∷◌, Result, err, map_err}
use zyris_docker.Prelude.Text.{Text, codes}
use zyris_docker.FilePath.{FilePath}
use zyris_docker.FilePath.Display.{display}
use zyris_docker.Runtime.Credential.{Credential}
use zyris_docker.Runtime.Store.Errors.{CredentialStore, CredentialStoreError, unusable, classify}
use zyris_docker.Runtime.Store.Disk.{
  Disk, Outcome, done, Ended, returned, process_killed, save, load, clear,
}

pub record Files : Type 0 where
  pub disk : Disk
  pub saves : List (List Outcome)

-- No answer that is left means that the calls are done.
abbrev pub next_outcomes : List (List Outcome) → List Outcome
next_outcomes [] = done ∷ done ∷ done ∷ done ∷ done ∷ done ∷ done ∷ []
next_outcomes (outcomes ∷ saves) = outcomes

abbrev pub later : List (List Outcome) → List (List Outcome)
later [] = []
later (outcomes ∷ saves) = saves

-- A process that is killed in a save hears nothing of it, and so not of a success.
abbrev pub answer_of : Ended → Result CredentialStoreError (Unit {0})
answer_of (returned answer) = map_err classify answer
answer_of process_killed = err (unusable (codes "killed"))

module _ (encode : Credential → Result Text Text) (decode : Text → Result Text Credential)
    (umask_mode : ℕ) (path : FilePath) where
  abbrev save_file : Credential → Files → Result CredentialStoreError (Unit {0}) × Files
  save_file credential files =
      let (ended, after) =
        save encode decode umask_mode path credential (next_outcomes files.saves) files.disk in
      (answer_of ended, record { disk = after; saves = later files.saves })

  abbrev clear_file : Files → Result CredentialStoreError (Unit {0}) × Files
  clear_file files =
      let (answer, after) = clear path none files.disk in
      (map_err classify answer, record files { disk = after })

  -- `impl CredentialStore for FileCredentialStore`
  abbrev pub file_store : CredentialStore
  file_store = record {
    State = Files;
    load = λ files.
        (map_err classify (load encode decode umask_mode path none none files.disk), files);
    save = save_file;
    clear = clear_file;
    describe = λ files. display path;
  }
