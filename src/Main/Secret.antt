-- ===== src/Main/Secret.antt =====
-- The gate of this node and the store of this node agree on where the credential is.
use zyris_docker.Prelude.{◌≡◌, ◌≢◌, Option, some, List, [], ◌∷◌, ok, All}
use zyris_docker.Prelude.Text.{Text}
use zyris_docker.FilePath.{FilePath, normal, push}
use zyris_docker.FilePath.Clean.{IsUnder}
use zyris_docker.Runtime.Credentials.{Env}
use zyris_docker.Runtime.Slug.{file_name}
use zyris_docker.Runtime.Store.{credential_dir}
use zyris_docker.Gate.{PathGate, new_gate, check}
use zyris_docker.Gate.Check.{check_iff}
use zyris_docker.Main.{resolve_roots}

module _ (canonicalize : FilePath → Option FilePath) (read_path : Text → FilePath) (env : Env)
    (file_roots : List Text) where
  -- The gate that `main` makes.
  abbrev pub node_gate : PathGate
  node_gate =
      let (roots, deny) = resolve_roots read_path env file_roots in new_gate canonicalize roots deny

  pub denied_last :
      (real p : FilePath)
      → canonicalize (credential_dir read_path env) ≡ some real
      → All (λ d. ¬ IsUnder p d) node_gate.deny
      → ¬ IsUnder p real
  unfolding resolve_roots new_gate
  denied_last real p h = rw h (λ all. all.1.1.0)

  -- Where the credential directory resolves when the gate is made, the gate never approves a path
  -- in what it resolved to, however the disk changes later: neither that directory nor the
  -- credential file there of any deployment and profile.
  pub credential-denied :
      (later : FilePath → Option FilePath) (real p : FilePath) (requested server_url profile : Text)
      → canonicalize (credential_dir read_path env) ≡ some real
      → check later node_gate requested ≡ ok p
      → (¬ IsUnder p real) × (p ≢ push real (normal (file_name server_url profile)))
  unfolding push
  credential-denied later real p requested server_url profile h e =
      let apart = denied_last real p h (((check_iff later node_gate requested p).0 e).1.1) in
      (apart, λ same. apart (normal (file_name server_url profile) ∷ [], same))
