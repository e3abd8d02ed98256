-- ===== src/Runtime/Store/Save.antt =====
-- `save` cut short anywhere: the file is the old one or the whole new one.
use zyris_docker.Prelude.{
  ℕ, false, ◌≡◌, ◌≢◌, ◌⊎◌, refl, ap, sym, subst, ◌∙◌, Option, none, some, List, [], ◌∷◌, ◌++◌,
  Result, ok, arith, inl, inr, Option-cases, Bool-cases, ◌==◌, All, All-append, append_assoc,
}
use zyris_docker.Prelude.Text.{Text}
use zyris_docker.FilePath.{FilePath, path_eq, pop}
use zyris_docker.FilePath.Clean.{path_eq_refl}
use zyris_docker.Runtime.Credential.{Credential}
use zyris_docker.Runtime.Store.Errors.{credential_version}
use zyris_docker.Runtime.Store.Disk.{
  File, Disk, put, Outcome, done, failed, killed, Ended, returned, process_killed, SysCall,
  create_dir_all, protect_dir, create, set_private, write_all, sync_all, rename, perform, cut_short,
  interrupted, run_calls, temp_of, dir_calls, file_calls, save, load, load_file, parse,
}

-- Reading an entry that was just put, and one that was not.
put_self : (p : FilePath) (f : Option File) (disk : Disk) → put p f disk p ≡ f
put_self p f disk = rw (path_eq_refl p)

put_ne :
    (p q : FilePath) (f : Option File) (disk : Disk) → path_eq q p ≡ false → put p f disk q ≡ disk q
put_ne p q f disk h = rw h

-- A call that writes to `temp` alone.
abbrev OnTemp : FilePath → SysCall → Type 0
OnTemp temp (create_dir_all dir) = Unit
OnTemp temp (protect_dir dir) = Unit
OnTemp temp (create p) = p ≡ temp
OnTemp temp (set_private p) = p ≡ temp
OnTemp temp (sync_all p) = p ≡ temp
OnTemp temp (write_all p bytes) = p ≡ temp
OnTemp temp (rename from to) = ⊥

abbrev perform_all : ℕ → List SysCall → Disk → Disk
perform_all umask_mode [] disk = disk
perform_all umask_mode (call ∷ calls) disk =
    perform_all umask_mode calls (perform umask_mode call disk)

-- The file at `path` after a run: as before and no success, or `file` and a success or a kill.
abbrev OldOrNew : FilePath → Option File → Disk → Ended × Disk → Type 0
OldOrNew path file disk r =
    ((r.1 path ≡ disk path) × (r.0 ≢ returned (ok tt)))
    ⊎ ((r.1 path ≡ file) × ((r.0 ≡ returned (ok tt)) ⊎ (r.0 ≡ process_killed)))

-- What `save` does before the rename.
abbrev temp_calls : FilePath → Text → List SysCall
temp_calls temp bytes = create temp ∷ set_private temp ∷ write_all temp bytes ∷ sync_all temp ∷ []

module _ (umask_mode : ℕ) (path temp : FilePath) (apart : path_eq path temp ≡ false) where
  perform_elsewhere :
      (call : SysCall) (disk : Disk)
      → OnTemp temp call
      → perform umask_mode call disk path ≡ disk path
  unfolding perform
  perform_elsewhere (create_dir_all dir) disk h = refl
  perform_elsewhere (protect_dir dir) disk h = refl
  perform_elsewhere (create p) disk h = rw (h, apart)
  perform_elsewhere (set_private p) disk h = rw (h, apart)
  perform_elsewhere (sync_all p) disk h = refl
  perform_elsewhere (write_all p bytes) disk h = rw (h, apart)
  perform_elsewhere (rename from to) disk h = absurd h

  cut_elsewhere :
      (call : SysCall) (n : ℕ) (disk : Disk)
      → OnTemp temp call
      → cut_short umask_mode call n disk path ≡ disk path
  unfolding cut_short
  cut_elsewhere (write_all p bytes) n disk h = rw (h, apart)
  cut_elsewhere (rename from to) n disk h = absurd h
  cut_elsewhere (create_dir_all dir) n disk h = refl
  cut_elsewhere (protect_dir dir) n disk h = refl
  cut_elsewhere (create p) n disk h = refl
  cut_elsewhere (set_private p) n disk h = refl
  cut_elsewhere (sync_all p) n disk h = refl

  -- A kill leaves the path as it is, too.
  killed_elsewhere :
      (call : SysCall) (n : ℕ) (disk : Disk)
      → OnTemp temp call
      → interrupted umask_mode call n disk path ≡ disk path
  unfolding interrupted cut_short perform
  killed_elsewhere (write_all p bytes) n disk h = rw (h, apart)
  killed_elsewhere (rename from to) n disk h = absurd h
  killed_elsewhere (create_dir_all dir) n disk h = refl
  killed_elsewhere (protect_dir dir) n disk h = refl
  killed_elsewhere (create p) n disk h = elim (Bool-cases (n == 0)) [
    | inl e ↦ rw e refl
    | inr e ↦ rw (e, h, apart) refl
  ]
  killed_elsewhere (set_private p) n disk h = elim (Bool-cases (n == 0)) [
    | inl e ↦ rw e refl
    | inr e ↦ rw (e, h, apart) refl
  ]
  killed_elsewhere (sync_all p) n disk h = refl

  front_atomic :
      (front : List SysCall) (outcomes : List Outcome) (disk : Disk)
      → All (OnTemp temp) front
      → OldOrNew path
          (perform_all umask_mode front disk temp)
          disk
          (run_calls umask_mode (ok tt) (front ++ rename temp path ∷ []) outcomes disk)
  unfolding run_calls interrupted
  front_atomic [] [] disk h = inl (refl, λ e. cc)
  front_atomic [] (done ∷ outcomes) disk h = inr (rw (path_eq_refl path), inl refl)
  front_atomic [] (failed error n ∷ outcomes) disk h = inl (refl, λ e. cc)
  front_atomic [] (killed n ∷ outcomes) disk h = elim (Bool-cases (n == 0)) [
    | inl e ↦ inl (rw (e, interrupted) refl, λ x. cc)
    | inr e ↦ inr (rw (e, interrupted, path_eq_refl path) refl, inr refl)
  ]
  front_atomic (call ∷ front) [] disk h = inl (refl, λ e. cc)
  front_atomic (call ∷ front) (done ∷ outcomes) disk h =
      elim (front_atomic front outcomes (perform umask_mode call disk) h.1) [
        | inl (same, fails) ↦ inl (same ∙ perform_elsewhere call disk h.0, fails)
        | inr new ↦ inr new
      ]
  front_atomic (call ∷ front) (failed error n ∷ outcomes) disk h =
      inl (cut_elsewhere call n disk h.0, λ e. cc)
  front_atomic (call ∷ front) (killed n ∷ outcomes) disk h =
      inl (killed_elsewhere call n disk h.0, λ e. cc)

  temp_written :
      (bytes : Text) (disk : Disk)
      → perform_all umask_mode (temp_calls temp bytes) disk temp
        ≡ some (record { bytes = bytes; mode = 0o600 })
  unfolding perform
  temp_written bytes disk = elim (Option-cases (disk temp)) [
    | inl e ↦ rw (path_eq_refl temp, e)
    | inr (f, e) ↦ rw (path_eq_refl temp, e)
  ]

  perform_all-append :
      (front back : List SysCall) (disk : Disk)
      → perform_all umask_mode (front ++ back) disk
        ≡ perform_all umask_mode back (perform_all umask_mode front disk)
  perform_all-append [] back disk = refl
  perform_all-append (call ∷ front) back disk =
      perform_all-append front back (perform umask_mode call disk)

  dir_calls-quiet :
      (dir : FilePath) (disk : Disk)
      → All (OnTemp temp) (dir_calls dir) × (perform_all umask_mode (dir_calls dir) disk ≡ disk)
  unfolding dir_calls perform
  dir_calls-quiet dir disk = elim (Option-cases (pop dir)) [
    | inl e ↦ rw (e, dir_calls) (tt, refl)
    | inr (parent, e) ↦ rw (e, dir_calls) ((tt, (tt, tt)), refl)
  ]

module _ (encode : Credential → Result Text Text) (decode : Text → Result Text Credential)
    (umask_mode : ℕ) (path : FilePath) (credential : Credential) (bytes : Text)
    (encoded : encode credential ≡ ok bytes) (apart : path_eq path (temp_of path) ≡ false) where
  abbrev new_file : File
  new_file = record { bytes = bytes; mode = 0o600 }

  -- Of a credential that serialises, at a path that is not its own temporary file: wherever
  -- `save` fails or the process is killed in it, the file is as it was before and the call has
  -- not reported success; or the file holds the whole credential and is private to its owner,
  -- and the call has succeeded, or the process was killed once the file was in place and
  -- before the call returned.
  pub save_atomic :
      (outcomes : List Outcome) (disk : Disk)
      → let (ended, after) = save encode decode umask_mode path credential outcomes disk in
        ((after path ≡ disk path) × (ended ≢ returned (ok tt)))
        ⊎ ((after path ≡ some new_file) × ((ended ≡ returned (ok tt)) ⊎ (ended ≡ process_killed)))
  unfolding save file_calls
  save_atomic outcomes disk = subst (OldOrNew path (some new_file) disk) (sym as_front) (
      subst
        (λ (file : Option File).
          OldOrNew path file disk
            (run_calls umask_mode (ok tt) (calls ++ rename temp path ∷ []) outcomes disk))
        written
        (front_atomic umask_mode path temp apart calls outcomes disk
          (All-append _ (dir_calls path) _ (quiet disk).0 (refl, (refl, (refl, (refl, tt)))))))
    where
      temp : FilePath
      temp = temp_of path

      calls : List SysCall
      calls = dir_calls path ++ temp_calls temp bytes

      as_front :
          save encode decode umask_mode path credential outcomes disk
          ≡ run_calls umask_mode (ok tt) (calls ++ rename temp path ∷ []) outcomes disk
      as_front =
          rw (encoded, save)
            (ap (λ (l : List SysCall). run_calls umask_mode (ok tt) l outcomes disk)
              (sym (append_assoc (dir_calls path) (temp_calls temp bytes) (rename temp path ∷ []))))

      quiet :
          (d : Disk)
          → All (OnTemp temp) (dir_calls path) × (perform_all umask_mode (dir_calls path) d ≡ d)
      quiet = dir_calls-quiet umask_mode path temp apart path

      written : perform_all umask_mode calls disk temp ≡ some new_file
      written =
          ap (λ (d : Disk). d temp)
            (perform_all-append umask_mode path temp apart (dir_calls path) (temp_calls temp bytes)
              disk)
          ∙ ap (λ (d : Disk). perform_all umask_mode (temp_calls temp bytes) d temp) (quiet disk).1
          ∙ temp_written umask_mode path temp apart bytes disk

  parse_current :
      decode bytes ≡ ok credential
      → credential.version ≡ credential_version
      → parse encode decode umask_mode bytes ≡ ok (some credential)
  unfolding parse
  parse_current decoded current = ground (arith, decoded, current)

  -- After a save that succeeds, at a path that is not its own temporary file, a load whose read
  -- and query succeed finds the credential, if it has the version of this build and the reader
  -- reads back what the writer wrote.
  pub load-save :
      (outcomes : List Outcome) (disk : Disk)
      → decode bytes ≡ ok credential
      → credential.version ≡ credential_version
      → (save encode decode umask_mode path credential outcomes disk).0 ≡ returned (ok tt)
      → load encode decode umask_mode path none none
          (save encode decode umask_mode path credential outcomes disk).1
        ≡ ok (some credential)
  load-save outcomes disk decoded current succeeded = elim (save_atomic outcomes disk) [
    | inl (_, fails) ↦ absurd (fails succeeded)
    | inr (new, _) ↦ unfold load load_file in rw (new, load) (parse_current decoded current)
  ]
