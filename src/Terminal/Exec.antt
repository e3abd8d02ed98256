-- ===== src/Terminal/Exec.antt =====
-- Where `exec` runs a command, how long it lets it run, and what it answers.
use zyris_docker.Prelude.{
  ℕ, ◌≡◌, refl, ◌⊎◌, inl, inr, Option, none, some, List, ltb, All, All-append, Bool-cases,
  Result-cases, Result, ok, err,
}
use zyris_docker.Prelude.Text.{Text}
use zyris_docker.FilePath.{FilePath}
use zyris_docker.Gate.{PathGate, gate_root, check}
use zyris_docker.Gate.Check.{Allowed, check_iff}
use zyris_docker.Terminal.Defs.{
  effective_timeout, ExecCall, Spawn, Signal, sigterm, sigkill, Action, spawn, feed, kill_group,
  sleep, Child, too_late, kill, fed, stuck, exec_program, exec_dir, exec_plan, exec_child, exec,
}

module _ (canonicalize : FilePath → Option FilePath) (gate : PathGate)
    (max_output_bytes exec_timeout : ℕ) (decode : List ℕ → Text) where
  -- Where the call names no directory a command is spawned in the gate's first root. Where it names one
  -- it is spawned in what the gate answers for it, which the gate allows.
  abbrev pub RunsInside : Option Text → Action → Type 0
  RunsInside cwd (spawn plan) =
      ((cwd ≡ none) × (plan.current_dir ≡ gate_root gate))
      ⊎ ((c : Text) × (cwd ≡ some c)
          × (check canonicalize gate c ≡ ok plan.current_dir)
          × Allowed canonicalize gate plan.current_dir)
  RunsInside cwd (feed t) = Unit
  RunsInside cwd (kill_group pid signal) = Unit
  RunsInside cwd (sleep t) = Unit

  kill-RunsInside :
      (cwd : Option Text) (pid : ℕ) (signal : Signal) → All (RunsInside cwd) (kill pid signal)
  kill-RunsInside cwd pid signal = elim (Bool-cases (ltb 0 pid)) [
    | inl e ↦ rw e (tt, tt)
    | inr e ↦ rw e tt
  ]

  fed-RunsInside : (cwd : Option Text) (stdin : Option Text) → All (RunsInside cwd) (fed stdin)
  fed-RunsInside cwd none = tt
  fed-RunsInside cwd (some t) = (tt, tt)

  exec_child-RunsInside :
      (call : ExecCall) (plan : Spawn) (child : Result Text Child)
      → RunsInside call.cwd (spawn plan)
      → All
          (RunsInside call.cwd)
          (exec_child canonicalize gate max_output_bytes exec_timeout decode call plan child).1
  unfolding exec_child
  exec_child-RunsInside call plan (err e) h = tt
  exec_child-RunsInside call plan (ok child) h = elim (Bool-cases (stuck call.stdin child)) [
    | inl waits ↦ rw waits (h, fed-RunsInside call.cwd call.stdin)
    | inr taken ↦
        elim (Bool-cases (too_late (effective_timeout exec_timeout call.timeout_ms) child.took)) [
          | inl e ↦
              rw (taken, e)
                (
                  h,
                  All-append (RunsInside call.cwd) _ _ (fed-RunsInside call.cwd call.stdin) (
                      All-append (RunsInside call.cwd) _ _
                        (kill-RunsInside call.cwd child.pid sigterm)
                        (tt, kill-RunsInside call.cwd child.pid sigkill)),
                )
          | inr e ↦ rw (taken, e) (h, fed-RunsInside call.cwd call.stdin)
        ]
  ]

  exec_dir-Inside :
      (cwd : Option Text) (dir : FilePath)
      → exec_dir canonicalize gate cwd ≡ ok dir
      → ((cwd ≡ none) × (dir ≡ gate_root gate))
        ⊎ ((c : Text) × (cwd ≡ some c)
            × (check canonicalize gate c ≡ ok dir)
            × Allowed canonicalize gate dir)
  unfolding exec_dir
  exec_dir-Inside none dir h = inl (refl, cc)
  exec_dir-Inside (some c) dir h = inr (c, refl, h, ((check_iff canonicalize gate c dir).0 h).1)

  -- Every command that `exec` spawns runs in the gate's first root, where the call names no
  -- directory, or else in the very path that the gate answers for the directory that it names,
  -- which the gate allows. So a call whose directory the gate refuses spawns nothing.
  pub exec-confined :
      (call : ExecCall) (run : Spawn → Result Text Child)
      → All
          (RunsInside call.cwd)
          (exec canonicalize gate max_output_bytes exec_timeout decode call run).1
  unfolding exec exec_plan
  exec-confined call run = elim (Result-cases (exec_program call.command call.argv call.shell)) [
    | inr (x, e) ↦ rw e tt
    | inl (a, e) ↦ rw e elim (Result-cases (exec_dir canonicalize gate call.cwd)) [
      | inr (x, e2) ↦ rw e2 tt
      | inl (dir, e2) ↦ rw e2 (exec_child-RunsInside call _ _ (exec_dir-Inside call.cwd dir e2))
    ]
  ]
