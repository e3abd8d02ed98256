-- ===== src/FileIo/Confined.antt =====
-- No `file_io` call reaches the disk by a path that the gate has not approved.
use zyris_docker.Prelude.{◌≡◌, ◌⊎◌, inl, inr, Option, ok, err, Result-cases}
use zyris_docker.Prelude.Text.{Text}
use zyris_docker.FilePath.{FilePath}
use zyris_docker.FilePath.Display.{display}
use zyris_docker.Wire.{WireError}
use zyris_docker.Gate.{PathGate, check}
use zyris_docker.Gate.Check.{Allowed, check_iff}
use zyris_docker.FileIo.{
  Call, stat, list, mkdir, read, read_stream, write, remove, edit, LocalFileIo, path_of, gate_ok,
  gated,
}

-- The call with its path replaced.
abbrev pub with_path : Call → Text → Call
with_path (stat _) path = stat path
with_path (list _) path = list path
with_path (mkdir _) path = mkdir path
with_path (read _ offset len) path = read path offset len
with_path (read_stream _ offset len) path = read_stream path offset len
with_path (write _ payload overwrite) path = write path payload overwrite
with_path (remove _ recursive) path = remove path recursive
with_path (edit _ old_string new_string replace_all) path =
    edit path old_string new_string replace_all

module _ (canonicalize : FilePath → Option FilePath) (gate : PathGate) (inner : LocalFileIo) where
  open inner use {Disk, Reply, serve}

  gated-refused :
      (call : Call) (disk : Disk) (e : WireError)
      → check canonicalize gate (path_of call) ≡ err e
      → gated canonicalize gate inner call disk ≡ (err e, disk)
  unfolding gated gate_ok
  gated-refused (stat path) disk e h = rw h
  gated-refused (list path) disk e h = rw h
  gated-refused (mkdir path) disk e h = rw h
  gated-refused (read path offset len) disk e h = rw h
  gated-refused (read_stream path offset len) disk e h = rw h
  gated-refused (write path payload overwrite) disk e h = rw h
  gated-refused (remove path recursive) disk e h = rw h
  gated-refused (edit path old_string new_string replace_all) disk e h = rw h

  gated-approved :
      (call : Call) (disk : Disk) (p : FilePath)
      → check canonicalize gate (path_of call) ≡ ok p
      → gated canonicalize gate inner call disk ≡ serve (with_path call (display p)) disk
  unfolding gated gate_ok
  gated-approved (stat path) disk p h = rw h
  gated-approved (list path) disk p h = rw h
  gated-approved (mkdir path) disk p h = rw h
  gated-approved (read path offset len) disk p h = rw h
  gated-approved (read_stream path offset len) disk p h = rw h
  gated-approved (write path payload overwrite) disk p h = rw h
  gated-approved (remove path recursive) disk p h = rw h
  gated-approved (edit path old_string new_string replace_all) disk p h = rw h

  -- Each of the eight methods either answers the gate's refusal and leaves the disk as it was, or
  -- makes the same call of the layer below at a path under an allowed root and no denied directory.
  pub gated-confined :
      (call : Call) (disk : Disk)
      → ((e : WireError) × (check canonicalize gate (path_of call) ≡ err e)
          × (gated canonicalize gate inner call disk ≡ (err e, disk)))
        ⊎ ((p : FilePath) × Allowed canonicalize gate p
            × (gated canonicalize gate inner call disk ≡ serve (with_path call (display p)) disk))
  gated-confined call disk = elim (Result-cases (check canonicalize gate (path_of call))) [
    | inl (p, e) ↦
        inr
          (p, ((check_iff canonicalize gate (path_of call) p).0 e).1, gated-approved call disk p e)
    | inr (e, h) ↦ inl (e, h, gated-refused call disk e h)
  ]
