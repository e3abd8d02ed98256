-- ===== src/Main/Guards.antt =====
-- The capabilities that `main` assembles, against the credential directory.
use zyris_docker.Prelude.{
  ℕ, ◌≡◌, ◌⊎◌, inl, inr, refl, sym, subst, Option, some, List, Result, ok, err, All, All-map,
}
use zyris_docker.Prelude.Text.{Text}
use zyris_docker.FilePath.{FilePath}
use zyris_docker.FilePath.Clean.{IsUnder}
use zyris_docker.FilePath.Display.{display}
use zyris_docker.Wire.{WireError}
use zyris_docker.Runtime.Credentials.{CredentialsError, Env}
use zyris_docker.Runtime.Config.{RunConfig}
use zyris_docker.Runtime.Store.{credential_dir}
use zyris_docker.Gate.{PathGate}
use zyris_docker.FileIo.{Call, LocalFileIo, gated}
use zyris_docker.FileIo.Confined.{with_path, gated-confined}
use zyris_docker.Terminal.{ExecCall, Spawn, Child, Action, spawn, feed, kill_group, sleep, exec}
use zyris_docker.Terminal.Exec.{RunsInside, exec-confined}
use zyris_docker.Config.{config_from_env}
use zyris_docker.Enroll.Source.{Source}
use zyris_docker.Main.Secret.{node_gate, denied_last}
use zyris_docker.Main.Start.{
  Assembly, Begun, printed, failed, assembled, Host, assembly_of, built, with_source, start_up,
}

module _ (host : Host) (build_node : Assembly → Result Text (Unit {0})) (env : Env) where
  -- The gate of the roots that the environment names.
  abbrev pub gate_of : PathGate
  gate_of = node_gate host.canonicalize host.read_path env (config_from_env env).file_roots

  abbrev Gated : Begun → Type 0
  Gated (assembled a) = (a.file_gate ≡ gate_of) × (a.terminal_gate ≡ gate_of)
  Gated (printed t) = Unit
  Gated (failed e) = Unit

  built-Gated :
      (a : Assembly) (r : Result Text (Unit {0}))
      → (a.file_gate ≡ gate_of) × (a.terminal_gate ≡ gate_of)
      → Gated (built host build_node a r)
  built-Gated a (ok done) h = h
  built-Gated a (err e) h = tt

  with_source-Gated :
      (config : RunConfig) (r : Result CredentialsError Source)
      → Gated (with_source host build_node env config r)
  unfolding assembly_of
  with_source-Gated config (err e) = tt
  with_source-Gated config (ok creds) = built-Gated _ _ (refl, refl)

  -- Both gates are that one.
  start_up-Gated : Gated (start_up host build_node env)
  unfolding start_up
  start_up-Gated = with_source-Gated _ _

module _ (host : Host) (build_node : Assembly → Result Text (Unit {0})) (env : Env) (a : Assembly)
    (real : FilePath) (started : start_up host build_node env ≡ assembled a)
    (resolved : host.canonicalize (credential_dir host.read_path env) ≡ some real) where
  outside :
      (p : FilePath)
      → All (λ d. ¬ IsUnder p d) (gate_of host build_node env).deny
      → ¬ IsUnder p real
  outside p =
      denied_last host.canonicalize host.read_path env (config_from_env env).file_roots real p
        resolved

  both_gates :
      (a.file_gate ≡ gate_of host build_node env) × (a.terminal_gate ≡ gate_of host build_node env)
  both_gates = subst (Gated host build_node env) started (start_up-Gated host build_node env)

  -- Every `file_io` call of a node that was started is refused, and the disk left as it was,
  -- or is the same call at a path that is not in the directory that holds the node's
  -- credential, as that directory resolved when the gate was made, however the disk changes
  -- later.
  pub file_io-spares_credential :
      (later : FilePath → Option FilePath) (inner : LocalFileIo) (call : Call) (disk : inner.Disk)
      → ((e : WireError) × (gated later a.file_gate inner call disk ≡ (err e, disk)))
        ⊎ ((p : FilePath) × (¬ IsUnder p real)
            × (gated later a.file_gate inner call disk
                ≡ inner.serve (with_path call (display p)) disk))
  file_io-spares_credential later inner call disk =
      rw both_gates.0 (elim (gated-confined later (gate_of host build_node env) inner call disk) [
        | inl (e, _, refused) ↦ inl (e, refused)
        | inr (p, allowed, served) ↦ inr (p, outside p allowed.1, served)
      ])

  -- A command that runs in a directory that the client names.
  abbrev pub StartsOutside : Action → Type 0
  StartsOutside (spawn plan) = ¬ IsUnder plan.current_dir real
  StartsOutside (feed t) = Unit
  StartsOutside (kill_group pid signal) = Unit
  StartsOutside (sleep t) = Unit

  starts_outside :
      (later : FilePath → Option FilePath) (cap timeout : ℕ) (decode : List ℕ → Text) (cwd : Text)
      (action : Action)
      → RunsInside later (gate_of host build_node env) cap timeout decode (some cwd) action
      → StartsOutside action
  starts_outside later cap timeout decode cwd (spawn plan) (inl (unnamed, dir)) = absurd (cc)
  starts_outside later cap timeout decode cwd (spawn plan) (inr (c, named, answered, allowed)) =
      outside plan.current_dir allowed.1
  starts_outside later cap timeout decode cwd (feed t) h = tt
  starts_outside later cap timeout decode cwd (kill_group pid signal) h = tt
  starts_outside later cap timeout decode cwd (sleep t) h = tt

  -- Nor is a command started there by an `exec` that names a directory.
  pub exec-StartsOutside :
      (later : FilePath → Option FilePath) (decode : List ℕ → Text) (call : ExecCall)
      (run : Spawn → Result Text Child) (cwd : Text)
      → call.cwd ≡ some cwd
      → All StartsOutside (exec later a.terminal_gate a.max_output a.exec_timeout decode call run).1
  exec-StartsOutside later decode call run cwd named =
      let gate = gate_of host build_node env in
      let started_in : (c : Option Text) → Type 0 = λ c.
        All (RunsInside later gate a.max_output a.exec_timeout decode c)
          (exec later gate a.max_output a.exec_timeout decode call run).1 in
      subst
        (λ (g : PathGate).
          All StartsOutside (exec later g a.max_output a.exec_timeout decode call run).1)
        (sym both_gates.1)
        (All-map (starts_outside later a.max_output a.exec_timeout decode cwd) _ (
          subst started_in named
            (exec-confined later gate a.max_output a.exec_timeout decode call run)))
