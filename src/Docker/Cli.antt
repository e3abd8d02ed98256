-- ===== src/Docker/Cli.antt =====
-- `run_docker` of src/docker.rs.
use zyris_docker.Prelude.{ℕ, List, Result, ok, err, ◌>>=◌, if◌then◌else◌}
use zyris_docker.Prelude.Text.{Text, trim}
use zyris_docker.Cli.{Command}

-- `decode` is `String::from_utf8_lossy`.
unfoldable pub run_docker : (List ℕ → Text) → Command → List Text → Result Text Text
run_docker decode docker args = do
  out ← docker args
  if out.success then ok (decode out.stdout) else err (trim (decode out.stderr))
