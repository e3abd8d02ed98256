-- ===== src/Terminal/Tests.antt =====
-- Commands run under a gate on `/data`, and the theorems on them.
use zyris_docker.Prelude.{
  ℕ, ◌≡◌, refl, true, Option, none, some, List, [], ◌∷◌, length, All, ok, err, ◌+◌,
}
use zyris_docker.Prelude.Text.{Text, codes}
use zyris_docker.FilePath.{FilePath, root_dir, normal}
use zyris_docker.Gate.{PathGate, gate_root}
use zyris_docker.Terminal.Defs.{ReadAnswer, bytes_read, read_failed, ExecCall, Spawn, Child, exec}
use zyris_docker.Terminal.Gated.{
  PtyTerminal, open_pty, write, TerminalCall, pty_method, exec_method, new_terminal, pty_replies,
  pty-ungated,
}
use zyris_docker.Terminal.Exec.{RunsInside, exec-confined}

abbrev gate : PathGate
gate = record { roots = (root_dir ∷ normal (codes "data") ∷ []) ∷ []; deny = [] }

abbrev no_disk : FilePath → Option FilePath
no_disk p = none

abbrev call : ExecCall
call = record {
  command = some (codes "ls");
  argv = none;
  cwd = none;
  timeout_ms = some 60000;
  stdin = some (codes "in");
  env = [];
  shell = none;
}

abbrev plan : Spawn
plan = record {
  program = codes "/bin/sh";
  arguments = codes "-c" ∷ codes "ls" ∷ [];
  current_dir = root_dir ∷ normal (codes "data") ∷ [];
  variables = [];
  piped_stdin = true;
}

abbrev decode : List ℕ → Text
decode bytes = bytes

-- Five bytes in two reads, and then an error.
abbrev five_bytes : List ReadAnswer
five_bytes =
    bytes_read (1 ∷ 2 ∷ 3 ∷ []) ∷ bytes_read (4 ∷ 5 ∷ []) ∷ read_failed ∷ bytes_read (6 ∷ []) ∷ []

abbrev child_of : Option ℕ → Child
child_of took = record {
  pid = 42;
  takes_stdin = true;
  out_answers = five_bytes;
  err_answers = [];
  code = some 0;
  took = took;
}

exec-confined_example :
    All
      (RunsInside no_disk gate 4 5000 decode none)
      (exec no_disk gate 4 5000 decode call (λ spawned. ok (child_of (some 10)))).1
exec-confined_example =
    exec-confined no_disk gate 4 5000 decode call (λ spawned. ok (child_of (some 10)))

-- A layer below that answers with how many calls it has had.
abbrev counting : PtyTerminal
counting = record {
  State = ℕ;
  Reply = ℕ;
  rooted = λ dir. length dir;
  serve = λ call n. (ok n, n + 1);
}

-- The same first root, and everything denied.
abbrev closed_gate : PathGate
closed_gate = record {
  roots = (root_dir ∷ normal (codes "data") ∷ []) ∷ [];
  deny = (root_dir ∷ []) ∷ [];
}

abbrev session : List (TerminalCall counting)
session =
    pty_method (open_pty none 80 24)
    ∷ exec_method call (λ p. err (codes "no shell"))
    ∷ pty_method (write (codes "1") (codes "cat /etc/shadow"))
    ∷ []

pty-ungated_example :
    pty_replies counting no_disk decode session (new_terminal counting gate 64 5000)
    ≡ pty_replies counting no_disk decode session (new_terminal counting closed_gate 8 1)
unfolding gate_root
pty-ungated_example = pty-ungated counting no_disk decode gate closed_gate 64 8 5000 1 session refl

-- The two calls are answered, and `exec` in between does not count.
session_replies :
    pty_replies counting no_disk decode session (new_terminal counting gate 64 5000)
    ≡ ok 2 ∷ ok 3 ∷ []
unfolding pty_replies new_terminal gate_root
session_replies = refl
