-- ===== src/Cli.antt =====
-- The command-line programs that the node runs, as src/docker.rs, src/k8s.rs and src/monitor.rs wait
-- for them: each is what it answers for its arguments.
use zyris_docker.Prelude.{ℕ, Bool, List, Result}
use zyris_docker.Prelude.Text.{Text}

-- `std::process::Output`
pub record Output : Type 0 where
  pub success : Bool
  pub stdout : List ℕ
  pub stderr : List ℕ

-- `Command::new(program).args(args).output()`, an error being the text that it displays as.
abbrev pub Command : Type 0
Command = List Text → Result Text Output
