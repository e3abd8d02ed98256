-- ===== src/FileIo/Tests.antt =====
-- A disk that keeps the paths it was asked for.
use zyris_docker.Prelude.{◌≡◌, List, [], ◌∷◌, ok, err, ◌⊎◌, true, none}
use zyris_docker.Prelude.Text.{Text, codes}
use zyris_docker.FilePath.{FilePath}
use zyris_docker.FilePath.Display.{display}
use zyris_docker.Wire.{WireError}
use zyris_docker.Gate.{PathGate, check}
use zyris_docker.Gate.Check.{Allowed}
use zyris_docker.FileIo.{Call, write, path_of, LocalFileIo, gated}
use zyris_docker.FileIo.Confined.{with_path, gated-confined}

abbrev recorder : LocalFileIo
recorder = record {
  Disk = List Text;
  Reply = Text;
  serve = λ call disk. (ok (path_of call), path_of call ∷ disk);
}

abbrev whole_gate : PathGate
whole_gate = record { roots = [] ∷ []; deny = [] }

abbrev write_x : Call
write_x = write (codes "x") (codes "payload") true

gated-confined_example :
    ((e : WireError) × (check (λ p. none) whole_gate (codes "x") ≡ err e)
      × (gated (λ p. none) whole_gate recorder write_x [] ≡ (err e, [])))
    ⊎ ((p : FilePath) × Allowed (λ p. none) whole_gate p
        × (gated (λ p. none) whole_gate recorder write_x []
            ≡ recorder.serve (with_path write_x (display p)) []))
gated-confined_example = gated-confined (λ p. none) whole_gate recorder write_x []
