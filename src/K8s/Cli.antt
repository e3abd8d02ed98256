-- ===== src/K8s/Cli.antt =====
-- `run_kubectl` and `available` of src/k8s.rs.
use zyris_docker.Prelude.{
  ℕ, Bool, true, false, List, [], ◌∷◌, ◌++◌, Result, ok, err, ◌>>=◌, map_err, if◌then◌else◌,
}
use zyris_docker.Prelude.Text.{Text, codes, trim}
use zyris_docker.Cli.{Command}
use zyris_docker.Json.{Value}

-- `decode` is `String::from_utf8_lossy`, and `from_slice` is `serde_json`'s.
unfoldable pub run_kubectl :
    (List ℕ → Text) → (List ℕ → Result Text Value) → Command → List Text → Result Text Value
run_kubectl decode from_slice kubectl args = do
  out ← map_err (λ e. codes "kubectl unavailable: " ++ e) (kubectl args)
  if out.success
      then map_err (λ e. codes "bad kubectl output: " ++ e) (from_slice out.stdout)
      else err (trim (decode out.stderr))

abbrev is_ok : Result Text Value → Bool
is_ok (ok v) = true
is_ok (err e) = false

unfoldable pub available : (List Text → Result Text Value) → Bool
available run = is_ok (run (codes "version" ∷ codes "--client=false" ∷ []))
