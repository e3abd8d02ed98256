-- ===== src/Main/Start.antt =====
-- `main` of src/main.rs up to the run: the arguments, the credential source and the node's parts.
-- `zyris::NodeBuilder::build` is a parameter.
use zyris_docker.Prelude.{
  ℕ, ◌*◌, Bool, Option, List, ◌++◌, ◌||◌, any, if◌then◌else◌, Result, ok, err,
}
use zyris_docker.Prelude.Text.{Text, codes, text_eq}
use zyris_docker.FilePath.{FilePath}
use zyris_docker.Runtime.Credentials.{CredentialsError, Env}
use zyris_docker.Runtime.Config.{RunConfig, from_env}
use zyris_docker.Runtime.Runner.{RunError, credentials, build, exit_code, status}
use zyris_docker.Gate.{PathGate, new_gate}
use zyris_docker.Config.{Config, config_from_env, max_output_bytes}
use zyris_docker.Enroll.Source.{Source, source}
use zyris_docker.Main.{settle_scopes, resolve_roots}

-- What the node is assembled from, and what runs it.
pub record Assembly : Type 0 where
  pub name : Text
  pub file_gate : PathGate
  pub terminal_gate : PathGate
  pub max_output : ℕ
  pub exec_timeout : ℕ
  pub config : RunConfig
  pub creds : Source
  pub watched : Config

-- How far `main` comes before the run: it prints and returns, it exits on an error, or it runs.
pub data Begun : Type 0 where
  printed : Text → Begun
  failed : RunError → Begun
  assembled : Assembly → Begun

unfoldable pub help_text : Text → Text
help_text version =
    codes "zyris-docker "
    ++ (version
        ++ codes
            " — a Zyris node for containers.\n\nConnects this container to Attacca and exposes monitor, file_io and terminal \ncapabilities, plus a self-healing watcher. Configure with the ZYRIS_* / ZYRISD_* \nenvironment variables (see README.md).\n\nUSAGE:\n  zyris-docker [--version] [--help]\n")

abbrev pub is_version : Text → Bool
is_version a = text_eq a (codes "--version") || text_eq a (codes "-V")

abbrev pub is_help : Text → Bool
is_help a = text_eq a (codes "--help") || text_eq a (codes "-h")

-- The fixed surroundings: how a path is read and resolved, the library's default server, the machine's
-- name and platform, and the version of the build.
pub record Host : Type 0 where
  pub read_path : Text → FilePath
  pub canonicalize : FilePath → Option FilePath
  pub server_url : Text
  pub machine_name : Option Text
  pub platform : Text
  pub version : Text

module _ (host : Host) (build_node : Assembly → Result Text (Unit {0})) where
  open host use {read_path, canonicalize, server_url, machine_name, platform, version}

  -- The node's parts. Times are in milliseconds.
  unfoldable pub assembly_of : Env → RunConfig → Source → Assembly
  assembly_of env config creds =
      let cfg = config_from_env env in
      let (roots, deny) = resolve_roots read_path env cfg.file_roots in
      record {
        name = config.node_name;
        file_gate = new_gate canonicalize roots deny;
        terminal_gate = new_gate canonicalize roots deny;
        max_output = max_output_bytes env;
        exec_timeout = cfg.exec_timeout * 1000;
        config = config;
        creds = creds;
        watched = cfg;
      }

  abbrev pub built : Assembly → Result Text (Unit {0}) → Begun
  built a (ok _) = assembled a
  built a (err e) = failed (build e)

  abbrev pub with_source : Env → RunConfig → Result CredentialsError Source → Begun
  with_source env config (err e) = failed (credentials e)
  with_source env config (ok creds) = let a = assembly_of env config creds in built a (build_node a)

  -- What follows the arguments, over the environment with the scopes settled.
  unfoldable pub start_up : Env → Begun
  unfolding assembly_of
  start_up env =
      let config = from_env server_url machine_name env in
      with_source env config (source read_path machine_name platform env config)

  -- `main`
  unfoldable pub main : List Text → Env → Begun
  unfolding start_up
  main args env =
      if any is_version args
      then printed (codes "zyris-docker " ++ version)
      else if any is_help args
      then printed (help_text version)
      else start_up (settle_scopes env)

-- The status that the process leaves with, where the run ends with this.
unfoldable pub main_status : Begun → Result RunError (Unit {0}) → ℕ
unfolding exit_code
main_status (printed t) outcome = 0
main_status (failed e) outcome = exit_code e
main_status (assembled a) outcome = status outcome
