-- ===== src/Runtime/Store/Disk.antt =====
-- The disk under the store: a file has bytes and a mode. `load` and `clear` meet what the disk
-- holds; `save` also meets, at each of its calls, what the system answers there.
use zyris_docker.Prelude.{
  ℕ, ◌%◌, Option, none, some, List, [], ◌∷◌, ◌++◌, ◌==◌, take, if◌then◌else◌, Result, ok, err, not,
}
use zyris_docker.Prelude.Text.{Text, codes}
use zyris_docker.FilePath.{FilePath, normal, split_last, pop, path_eq}
use zyris_docker.Runtime.Credentials.{IoError, ErrorKind, not_found, permission_denied, other_kind}
use zyris_docker.Runtime.Credential.{Credential}
use zyris_docker.Runtime.Store.Errors.{
  StoreError, permissive, unknown_version, corrupt, io, credential_version,
}

pub record File : Type 0 where
  pub bytes : Text
  pub mode : ℕ

abbrev pub Disk : Type 0
Disk = FilePath → Option File

abbrev pub put : FilePath → Option File → Disk → Disk
put path file disk p = if path_eq p path then file else disk p

-- How a call went: done, failed with so many bytes written, or the process was killed in it, with so
-- many bytes written. Of a call that writes no bytes, `killed 0` is before it took effect, and any other
-- number after it did and before the code went on.
pub data Outcome : Type 0 where
  done : Outcome
  failed : IoError → ℕ → Outcome
  killed : ℕ → Outcome

-- What a run of the code comes to.
pub data Ended : Type 0 where
  returned : Result StoreError (Unit {0}) → Ended
  process_killed : Ended

-- The calls of `save`, after the bytes have been serialised.
pub data SysCall : Type 0 where
  create_dir_all protect_dir : FilePath → SysCall
  create set_private sync_all : FilePath → SysCall
  write_all : FilePath → Text → SysCall
  rename : FilePath → FilePath → SysCall

abbrev pub with_bytes : Text → Option File → Option File
with_bytes bytes none = none
with_bytes bytes (some f) = some (record f { bytes = f.bytes ++ bytes })

abbrev pub with_mode : ℕ → Option File → Option File
with_mode mode none = none
with_mode mode (some f) = some (record f { mode = mode })

-- `File::create` empties a file that is there, and gives a new one the mode that the umask leaves.
abbrev pub created : ℕ → Option File → File
created umask_mode none = record { bytes = []; mode = umask_mode }
created umask_mode (some f) = record f { bytes = [] }

module _ (umask_mode : ℕ) where
  -- What a call does to the files when it is done. Directories are not kept.
  unfoldable pub perform : SysCall → Disk → Disk
  perform (create_dir_all dir) disk = disk
  perform (protect_dir dir) disk = disk
  perform (create path) disk = put path (some (created umask_mode (disk path))) disk
  perform (set_private path) disk = put path (with_mode 0o600 (disk path)) disk
  perform (write_all path bytes) disk = put path (with_bytes bytes (disk path)) disk
  perform (sync_all path) disk = disk
  perform (rename from to) disk = put to (disk from) (put from none disk)

  -- What it leaves when it fails: a write may have written some bytes, and the others are atomic.
  unfoldable pub cut_short : SysCall → ℕ → Disk → Disk
  cut_short (write_all path bytes) n disk = put path (with_bytes (take n bytes) (disk path)) disk
  cut_short (create_dir_all dir) n disk = disk
  cut_short (protect_dir dir) n disk = disk
  cut_short (create path) n disk = disk
  cut_short (set_private path) n disk = disk
  cut_short (sync_all path) n disk = disk
  cut_short (rename from to) n disk = disk

  -- What it leaves when the process is killed in it.
  unfoldable pub interrupted : SysCall → ℕ → Disk → Disk
  unfolding perform cut_short
  interrupted (write_all path bytes) n disk = cut_short (write_all path bytes) n disk
  interrupted (create_dir_all dir) n disk = disk
  interrupted (protect_dir dir) n disk = disk
  interrupted (create path) n disk = if n == 0 then disk else perform (create path) disk
  interrupted (set_private path) n disk = if n == 0 then disk else perform (set_private path) disk
  interrupted (sync_all path) n disk = disk
  interrupted (rename from to) n disk = if n == 0 then disk else perform (rename from to) disk

  -- The calls in turn, each with its outcome, and `final` after the last; the first error returns.
  unfoldable pub run_calls :
      Result StoreError (Unit {0}) → List SysCall → List Outcome → Disk → Ended × Disk
  unfolding perform cut_short interrupted
  run_calls final [] outcomes disk = (returned final, disk)
  run_calls final (call ∷ calls) [] disk = (process_killed, disk)
  run_calls final (call ∷ calls) (done ∷ outcomes) disk =
      run_calls final calls outcomes (perform call disk)
  run_calls final (call ∷ calls) (failed error n ∷ outcomes) disk =
      (returned (err (io error)), cut_short call n disk)
  run_calls final (call ∷ calls) (killed n ∷ outcomes) disk =
      (process_killed, interrupted call n disk)

-- What stands before the last dot of a name.
unfoldable pub before_last_dot : Text → Option Text
before_last_dot [] = none
before_last_dot (c ∷ name) = elim (before_last_dot name) [
  | some stem ↦ some (c ∷ stem)
  | none ↦ if c == b'.' then some [] else none
]

-- `Path::file_stem`: a dot at the start makes no extension.
unfoldable pub file_stem : Text → Text
unfolding before_last_dot
file_stem name = elim (before_last_dot name) [
  | none ↦ name
  | some [] ↦ name
  | some (c ∷ stem) ↦ c ∷ stem
]

-- `Path::with_extension`
unfoldable pub with_extension : FilePath → Text → FilePath
unfolding file_stem split_last
with_extension path extension = elim (split_last path) [
  | none ↦ path
  | some (dir, normal name) ↦ dir ++ normal (file_stem name ++ (codes "." ++ extension)) ∷ []
  | some (dir, c) ↦ path
]

abbrev pub temp_of : FilePath → FilePath
temp_of path = with_extension path (codes "tmp")

-- The parent directory is made and protected, if there is one.
unfoldable pub dir_calls : FilePath → List SysCall
unfolding pop
dir_calls path = elim (pop path) [
  | none ↦ []
  | some parent ↦ create_dir_all parent ∷ protect_dir parent ∷ []
]

unfoldable pub file_calls : FilePath → Text → List SysCall
unfolding with_extension
file_calls path bytes =
    create (temp_of path)
    ∷ set_private (temp_of path)
    ∷ write_all (temp_of path) bytes
    ∷ sync_all (temp_of path)
    ∷ rename (temp_of path) path
    ∷ []

module _ (encode : Credential → Result Text Text) (decode : Text → Result Text Credential)
    (umask_mode : ℕ) where
  -- `save`
  unfoldable pub save : FilePath → Credential → List Outcome → Disk → Ended × Disk
  unfolding dir_calls file_calls run_calls
  save path credential outcomes disk = elim (encode credential) [
    | err error ↦ run_calls umask_mode (err (corrupt error)) (dir_calls path) outcomes disk
    | ok bytes ↦
        run_calls umask_mode (ok tt) (dir_calls path ++ file_calls path bytes) outcomes disk
  ]

  -- The parse of the bytes, and the version.
  unfoldable pub parse : Text → Result StoreError (Option Credential)
  parse bytes = elim (decode bytes) [
    | err error ↦ err (corrupt error)
    | ok credential ↦
        if credential.version == credential_version
        then ok (some credential)
        else err (unknown_version credential.version)
  ]

  unfoldable pub load_file :
      FilePath → Option IoError → File → Result StoreError (Option Credential)
  unfolding parse
  load_file path (some error) file = err (io error)
  load_file path none file =
      let mode = file.mode % 0o1000 in
      if not (mode % 0o100 == 0) then err (permissive path mode) else parse file.bytes

  abbrev read_error : IoError → ErrorKind → Result StoreError (Option Credential)
  read_error error not_found = ok none
  read_error error permission_denied = err (io error)
  read_error error other_kind = err (io error)

  -- `load`: the read and the query of the mode may each fail.
  unfoldable pub load :
      FilePath → Option IoError → Option IoError → Disk → Result StoreError (Option Credential)
  unfolding load_file
  load path (some error) metadata disk = read_error error error.kind
  load path none metadata disk = elim (disk path) [
    | none ↦ ok none
    | some file ↦ load_file path metadata file
  ]

abbrev clear_error : IoError → ErrorKind → Result StoreError (Unit {0})
clear_error error not_found = ok tt
clear_error error permission_denied = err (io error)
clear_error error other_kind = err (io error)

-- `clear`: removing a file that is not there is success.
unfoldable pub clear : FilePath → Option IoError → Disk → Result StoreError (Unit {0}) × Disk
clear path (some error) disk = (clear_error error error.kind, disk)
clear path none disk = (ok tt, put path none disk)
