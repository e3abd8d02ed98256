-- ===== src/FileIo.antt =====
-- `GatedFileIo`, src/file_io.rs: every `file_io` method asks the gate first. The layer below,
-- `zyris_fs::LocalFileIo`, is a parameter: a state of the disk, and for each call the reply and the
-- state after it.
pub mod Above
pub mod Confined
mod Tests
use zyris_docker.Prelude.{ℕ, Bool, Option, Result, ok, err, ◌>>=◌}
use zyris_docker.Prelude.Text.{Text}
use zyris_docker.FilePath.{FilePath}
use zyris_docker.FilePath.Display.{display}
use zyris_docker.Wire.{WireError}
use zyris_docker.Gate.{PathGate, check}

-- A `file_io` call with the path it is for. `write` carries its payload as text.
pub data Call : Type 0 where
  stat list mkdir : Text → Call
  read read_stream : Text → Option ℕ → Option ℕ → Call
  write : Text → Text → Bool → Call
  remove : Text → Option Bool → Call
  edit : Text → Text → Text → Bool → Call

pub record LocalFileIo : Type 1 where
  pub Disk : Type 0
  pub Reply : Type 0
  pub serve : Call → Disk → Result WireError Reply × Disk

abbrev pub path_of : Call → Text
path_of (stat path) = path
path_of (list path) = path
path_of (mkdir path) = path
path_of (read path offset len) = path
path_of (read_stream path offset len) = path
path_of (write path payload overwrite) = path
path_of (remove path recursive) = path
path_of (edit path old_string new_string replace_all) = path

module _ (canonicalize : FilePath → Option FilePath) (gate : PathGate) where
  -- `GatedFileIo::ok`, for paths of valid text: `to_string_lossy` leaves them as they are.
  unfoldable pub gate_ok : Text → Result WireError Text
  gate_ok path = do approved ← check canonicalize gate path; ok (display approved)

  module _ (inner : LocalFileIo) where
    open inner use {Disk, Reply, serve}

    -- `self.inner.method(self.ok(&path)?, …).await`
    abbrev forward : Result WireError Text → (Text → Call) → Disk → Result WireError Reply × Disk
    forward (err e) call disk = (err e, disk)
    forward (ok path) call disk = serve (call path) disk

    unfoldable pub gated : Call → Disk → Result WireError Reply × Disk
    gated (stat path) disk = forward (gate_ok path) (λ p. stat p) disk
    gated (list path) disk = forward (gate_ok path) (λ p. list p) disk
    gated (read path offset len) disk = forward (gate_ok path) (λ p. read p offset len) disk
    gated (read_stream path offset len) disk =
        forward (gate_ok path) (λ p. read_stream p offset len) disk
    gated (write path payload overwrite) disk =
        forward (gate_ok path) (λ p. write p payload overwrite) disk
    gated (remove path recursive) disk = forward (gate_ok path) (λ p. remove p recursive) disk
    gated (edit path old_string new_string replace_all) disk =
        forward (gate_ok path) (λ p. edit p old_string new_string replace_all) disk
    gated (mkdir path) disk = forward (gate_ok path) (λ p. mkdir p) disk
