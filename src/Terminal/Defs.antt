-- ===== src/Terminal/Defs.antt =====
-- `GatedTerminal::exec` of src/terminal.rs. Times are in milliseconds.
use zyris_docker.Prelude.{
  ℕ, ◌-◌, ◌%◌, ◌^◌, min, Bool, true, false, not, Option, none, some, List, [], ◌∷◌, ◌++◌, ltb, ◌==◌,
  take, length, if◌then◌else◌, Result, ok, err, ◌>>=◌,
}
use zyris_docker.Prelude.Text.{Text, codes, trim, is_empty}
use zyris_docker.FilePath.{FilePath}
use zyris_docker.Wire.{WireError, invalid_params, internal}
use zyris_docker.Gate.{PathGate, gate_root, check}

-- `effective_timeout`: the configured time is cast to a `u64`.
unfoldable pub effective_timeout : ℕ → Option ℕ → ℕ
effective_timeout exec_timeout none = exec_timeout % 2 ^ 64
effective_timeout exec_timeout (some caller) = min caller (exec_timeout % 2 ^ 64)

-- An answer to `read`: bytes, none of them at the end, or an error.
pub data ReadAnswer : Type 0 where
  bytes_read : List ℕ → ReadAnswer
  read_failed : ReadAnswer

-- The loop of `read_capped`, over the answers of the stream, which end at its end.
unfoldable pub read_loop : ℕ → List ReadAnswer → List ℕ → Bool → List ℕ × Bool
read_loop cap [] out capped = (out, capped)
read_loop cap (read_failed ∷ answers) out capped = (out, capped)
read_loop cap (bytes_read buf ∷ answers) out capped =
    let n = length buf in
    let room = cap - length out in
    let next =
      read_loop cap answers (if ltb 0 room then out ++ take (min n room) buf else out)
        (if ltb room n then true else capped) in
    if n == 0 then (out, capped) else next

-- `read_capped`
unfoldable pub read_capped : ℕ → List ReadAnswer → List ℕ × Bool
unfolding read_loop
read_capped cap answers = read_loop cap answers [] false

-- `finish`, over `String::from_utf8_lossy`.
unfoldable pub finish : (List ℕ → Text) → List ℕ × Bool → Text
finish decode (bytes, capped) =
    if capped then decode bytes ++ codes "\n… output truncated at the cap" else decode bytes

-- The arguments of `exec`.
pub record ExecCall : Type 0 where
  pub command : Option Text
  pub argv : Option (List Text)
  pub cwd : Option Text
  pub timeout_ms : Option ℕ
  pub stdin : Option Text
  pub env : List (Text × Text)
  pub shell : Option Text

-- The command that is spawned, in a process group of its own.
pub record Spawn : Type 0 where
  pub program : Text
  pub arguments : List Text
  pub current_dir : FilePath
  pub variables : List (Text × Text)
  pub piped_stdin : Bool

-- `exit_code` is `none` for `-1`.
pub record ExecOutput : Type 0 where
  pub exit_code : Option ℕ
  pub stdout : Text
  pub stderr : Text
  pub timed_out : Bool
  pub stdout_truncated : Bool
  pub stderr_truncated : Bool

pub data Signal : Type 0 where
  sigterm sigkill : Signal

pub data Action : Type 0 where
  spawn : Spawn → Action
  feed : Text → Action
  kill_group : ℕ → Signal → Action
  sleep : ℕ → Action

-- What a child does: its pid, whether a write to its stdin comes to an end, as it does where the child
-- reads it or closes it, or where the text fits the pipe, the answers of its two pipes, its exit code, and the time it takes
-- until both pipes are at their end and it has exited; `none` where it never does.
pub record Child : Type 0 where
  pub pid : ℕ
  pub takes_stdin : Bool
  pub out_answers : List ReadAnswer
  pub err_answers : List ReadAnswer
  pub code : Option ℕ
  pub took : Option ℕ

abbrev pub kill_grace : ℕ
kill_grace = 200

abbrev pub invalid : Text → WireError
invalid message = record { code = invalid_params; message = message }

-- `matches!(command, Some(c) if !c.trim().is_empty())`
unfoldable pub has_command : Option Text → Bool
has_command none = false
has_command (some c) = not (is_empty (trim c))

-- What to run: the program and its arguments, or why the arguments of the call are refused.
unfoldable pub exec_program :
    Option Text → Option (List Text) → Option Text → Result WireError (Text × List Text)
unfolding has_command
exec_program command (some []) shell = err (invalid (codes "argv must not be empty"))
exec_program command (some (program ∷ arguments)) shell =
    if has_command command
    then err (invalid (codes "give `command` or `argv`, not both"))
    else ok (program, arguments)
exec_program none none shell = err (invalid (codes "give `command` or `argv`, not neither"))
exec_program (some line) none shell =
    if has_command (some line)
    then ok (elim shell [ none ↦ codes "/bin/sh" | some s ↦ s ], codes "-c" ∷ line ∷ [])
    else err (invalid (codes "give `command` or `argv`, not neither"))

abbrev is_given : Option Text → Bool
is_given none = false
is_given (some t) = true

abbrev pub fed : Option Text → List Action
fed none = []
fed (some t) = feed t ∷ []

-- Whether `exec` waits for ever in the write of the stdin, which has no timeout.
abbrev pub stuck : Option Text → Child → Bool
stuck none child = false
stuck (some t) child = not child.takes_stdin

-- `tokio::time::timeout`: a child that is done at the deadline is done.
abbrev pub too_late : ℕ → Option ℕ → Bool
too_late timeout none = true
too_late timeout (some took) = ltb timeout took

-- `kill_group`
abbrev pub kill : ℕ → Signal → List Action
kill pid signal = if ltb 0 pid then kill_group pid signal ∷ [] else []

unfoldable pub exec_timed_out : ExecOutput
exec_timed_out = record {
  exit_code = none;
  stdout = [];
  stderr = codes "command timed out; the whole process tree was killed";
  timed_out = true;
  stdout_truncated = false;
  stderr_truncated = false;
}

module _ (canonicalize : FilePath → Option FilePath) (gate : PathGate) where
  -- The directory of the child.
  unfoldable pub exec_dir : Option Text → Result WireError FilePath
  exec_dir none = ok (gate_root gate)
  exec_dir (some c) = check canonicalize gate c

  -- Everything of `exec` before the child is spawned.
  unfoldable pub exec_plan : ExecCall → Result WireError Spawn
  unfolding exec_program exec_dir
  exec_plan call = do
    (program, arguments) ← exec_program call.command call.argv call.shell
    dir ← exec_dir call.cwd
    ok (record {
      program = program;
      arguments = arguments;
      current_dir = dir;
      variables = call.env;
      piped_stdin = is_given call.stdin;
    })

  module _ (max_output_bytes exec_timeout : ℕ) (decode : List ℕ → Text) where
    unfoldable pub exec_finished : Child → ExecOutput
    unfolding finish read_capped
    exec_finished child =
        let out = read_capped max_output_bytes child.out_answers in
        let errs = read_capped max_output_bytes child.err_answers in
        record {
          exit_code = child.code;
          stdout = finish decode out;
          stderr = finish decode errs;
          timed_out = false;
          stdout_truncated = out.1;
          stderr_truncated = errs.1;
        }

    -- From the spawn on: what is answered, `none` where the call never returns, and what was done to
    -- the child.
    unfoldable pub exec_child :
        ExecCall → Spawn → Result Text Child → Option (Result WireError ExecOutput) × List Action
    unfolding effective_timeout
    exec_child call plan (err e) =
        (some (err (record { code = internal; message = codes "could not run: " ++ e })), [])
    exec_child call plan (ok child) =
        if stuck call.stdin child
        then (none, spawn plan ∷ fed call.stdin)
        else if too_late (effective_timeout exec_timeout call.timeout_ms) child.took
        then (
          some (ok exec_timed_out),
          spawn plan ∷ fed call.stdin
              ++ (kill child.pid sigterm ++ (sleep kill_grace ∷ kill child.pid sigkill)),
        )
        else (some (ok (exec_finished child)), spawn plan ∷ fed call.stdin)

    abbrev started :
        Result WireError Spawn
        → ExecCall
        → (Spawn → Result Text Child)
        → Option (Result WireError ExecOutput) × List Action
    started (err e) call run = (some (err e), [])
    started (ok plan) call run = exec_child call plan (run plan)

    -- `exec`; `run` is what becomes of a command that is spawned.
    unfoldable pub exec :
        ExecCall → (Spawn → Result Text Child) → Option (Result WireError ExecOutput) × List Action
    unfolding exec_plan exec_child
    exec call run = started (exec_plan call) call run
