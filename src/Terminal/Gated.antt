-- ===== src/Terminal/Gated.antt =====
-- `GatedTerminal` of src/terminal.rs as an object: what it keeps, and its PTY methods. The layer
-- below, `zyris_terminal::PtyTerminal`, is a parameter: a state, and for each call the reply and the
-- state after it.
use zyris_docker.Prelude.{ℕ, ◌≡◌, refl, ap, sym, ◌∙◌, Option, List, [], ◌∷◌, Result}
use zyris_docker.Prelude.Text.{Text}
use zyris_docker.FilePath.{FilePath}
use zyris_docker.Wire.{WireError}
use zyris_docker.Gate.{PathGate, gate_root}
use zyris_docker.Terminal.Defs.{ExecCall, ExecOutput, Spawn, Child, Action, exec}

-- The PTY methods of the trait `Terminal`. Ids, settle conditions and payloads are carried as text.
pub data PtyCall : Type 0 where
  open_pty open_stream : Option Text → ℕ → ℕ → PtyCall
  read screen : Text → Option Text → Option Text → PtyCall
  write : Text → Text → PtyCall
  resize : Text → ℕ → ℕ → PtyCall
  close : Text → PtyCall

pub record PtyTerminal : Type 1 where
  pub State : Type 0
  pub Reply : Type 0
  -- `PtyTerminal::rooted`
  pub rooted : FilePath → State
  pub serve : PtyCall → State → Result WireError Reply × State

module _ (pty : PtyTerminal) where
  open pty use {State, Reply, rooted, serve}

  pub record GatedTerminal : Type 0 where
    pub gate : PathGate
    pub max_output_bytes : ℕ
    pub exec_timeout : ℕ
    pub inner : State

  -- `GatedTerminal::new`
  unfoldable pub new_terminal : PathGate → ℕ → ℕ → GatedTerminal
  new_terminal gate max_output_bytes exec_timeout = record {
    gate = gate;
    max_output_bytes = max_output_bytes;
    exec_timeout = exec_timeout;
    inner = rooted (gate_root gate);
  }

  -- `self.inner.method(…).await`
  abbrev forward : PtyCall → GatedTerminal → Result WireError Reply × GatedTerminal
  forward call t = let (reply, after) = serve call t.inner in (reply, record t { inner = after })

  -- The seven PTY methods of `impl Terminal for GatedTerminal`.
  unfoldable pub pty_call : PtyCall → GatedTerminal → Result WireError Reply × GatedTerminal
  pty_call (open_pty shell cols rows) t = forward (open_pty shell cols rows) t
  pty_call (open_stream shell cols rows) t = forward (open_stream shell cols rows) t
  pty_call (read id input settle) t = forward (read id input settle) t
  pty_call (screen id input settle) t = forward (screen id input settle) t
  pty_call (write id payload) t = forward (write id payload) t
  pty_call (resize id cols rows) t = forward (resize id cols rows) t
  pty_call (close id) t = forward (close id) t

  pty_call-serve :
      (call : PtyCall) (t : GatedTerminal)
      → ((pty_call call t).0 ≡ (serve call t.inner).0)
        × ((pty_call call t).1.inner ≡ (serve call t.inner).1)
  unfolding pty_call
  pty_call-serve (open_pty shell cols rows) t = (refl, refl)
  pty_call-serve (open_stream shell cols rows) t = (refl, refl)
  pty_call-serve (read id input settle) t = (refl, refl)
  pty_call-serve (screen id input settle) t = (refl, refl)
  pty_call-serve (write id payload) t = (refl, refl)
  pty_call-serve (resize id cols rows) t = (refl, refl)
  pty_call-serve (close id) t = (refl, refl)

  -- The method `exec`, which is over the gate and the caps that the object keeps.
  unfoldable pub exec_call :
      (FilePath → Option FilePath)
      → (List ℕ → Text)
      → ExecCall
      → (Spawn → Result Text Child)
      → GatedTerminal
      → (Option (Result WireError ExecOutput) × List Action) × GatedTerminal
  exec_call canonicalize decode call run t =
      (exec canonicalize t.gate t.max_output_bytes t.exec_timeout decode call run, t)

  -- The calls of a client, PTY and `exec` in any order, and the replies to the PTY calls.
  pub data TerminalCall : Type 0 where
    pty_method : PtyCall → TerminalCall
    exec_method : ExecCall → (Spawn → Result Text Child) → TerminalCall

  module _ (canonicalize : FilePath → Option FilePath) (decode : List ℕ → Text) where
    unfoldable pub pty_replies : List TerminalCall → GatedTerminal → List (Result WireError Reply)
    unfolding pty_call exec_call
    pty_replies [] t = []
    pty_replies (pty_method call ∷ calls) t =
        let (reply, after) = pty_call call t in reply ∷ pty_replies calls after
    pty_replies (exec_method call run ∷ calls) t =
        pty_replies calls (exec_call canonicalize decode call run t).1

    same_replies :
        (calls : List TerminalCall) (t u : GatedTerminal)
        → t.inner ≡ u.inner
        → pty_replies calls t ≡ pty_replies calls u
    unfolding pty_replies
    same_replies [] t u h = refl
    same_replies (exec_method call run ∷ calls) t u h = same_replies calls t u h
    same_replies (pty_method call ∷ calls) t u h =
        let replies : (pty_call call t).0 ≡ (pty_call call u).0 =
          (pty_call-serve call t).0
          ∙ ap (λ (s : State). (serve call s).0) h
          ∙ sym (pty_call-serve call u).0 in
        let states : (pty_call call t).1.inner ≡ (pty_call call u).1.inner =
          (pty_call-serve call t).1
          ∙ ap (λ (s : State). (serve call s).1) h
          ∙ sym (pty_call-serve call u).1 in
        λ i. replies i ∷ same_replies calls (pty_call call t).1 (pty_call call u).1 states i

    -- A terminal session is confined by nothing but the directory that it starts in: whatever a client
    -- calls, two nodes whose gates have the same first root answer every PTY call alike, however their
    -- other roots, their deny lists, and their limits on time and output differ.
    pub pty-ungated :
        (gate other_gate : PathGate) (cap other_cap timeout other_timeout : ℕ)
        (calls : List TerminalCall)
        → gate_root gate ≡ gate_root other_gate
        → pty_replies calls (new_terminal gate cap timeout)
          ≡ pty_replies calls (new_terminal other_gate other_cap other_timeout)
    unfolding new_terminal
    pty-ungated gate other_gate cap other_cap timeout other_timeout calls h =
        same_replies calls _ _ (ap rooted h)
