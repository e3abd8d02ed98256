-- ===== src/Lib.antt =====
-- zyris-docker: a node that runs in a container, connects it to a server under a credential, and lets
-- the server read and write files and run commands there. This library models the program and proves
-- what makes its parts correct.
--
-- The parts and the files:
-- - FilePath.antt: the path operations of the standard library that the program calls; a path is the
--   list of its components.
-- - Wire.antt: the error that a refused call answers with.
-- - Gate.antt (src/gate.rs): `PathGate`. `check` joins a requested path to the first root as
--   `join_like_upstream` does, resolves it as `canonicalize_deepest` does, and tests it against the
--   deny list and the roots. What the file system makes of a path is the parameter `canonicalize`.
-- - FileIo.antt (src/file_io.rs): `GatedFileIo`, the eight methods over the gate and over a layer
--   below, `LocalFileIo`, a parameter.
-- - Terminal.antt (src/terminal.rs): `exec`. `exec_plan` is what stands before the spawn, and
--   `exec_child` what comes after it: the capped output, the timeout and the signals to the group.
--   Gated.antt is the object with its PTY methods, which go to a layer below, a parameter.
-- - Runtime/Credentials.antt (src/runtime/credentials.rs): the credential sources `StaticToken` and
--   `TokenFile`, `validate_credential` and `token_prefix`.
-- - Runtime/Config.antt and Runtime/Runner.antt (src/runtime/runner.rs): `RunConfig`, and the dial loop
--   as a machine. A `Phase` is what the loop awaits, an `Event` a result of it, and `run` a whole run
--   over any list of events, which stands for whatever the source, the server, the clock and the
--   signals answer. The log keeps what others can see of it.
-- - Runtime/Slug.antt, Runtime/Store.antt (src/runtime/store.rs): the name of the credential file, the
--   errors of the store, and `load`, `save` and `clear` over a disk. A save meets an outcome at each of
--   its calls, among them a failure or the end of the process part way through a write.
-- - Runtime/Credential.antt: the credential that the library hands over.
-- - Enroll.antt (src/enroll.rs): `source`, which chooses where the credential comes from, and the
--   device grant over any `CredentialStore`. The enrollment server is the list of its answers, one
--   turn for each poll; an enrollment that has had no final answer yet is `none`. Notice.antt is the
--   block that shows a code.
-- - Node.antt: the dial loop over the device grant, a node that enrolls itself. An `Input` is what it
--   waits for, or a write of another process to its store. OnDisk.antt is the node over its own file.
-- - Main.antt (src/main.rs): the scopes that are asked for, the gate's roots and deny list, and in
--   Start.antt `main` up to the run, over the arguments and the environment; Program.antt runs what it
--   assembles, where that is a node that enrolls itself.
-- - Config.antt (src/config.rs): the variables of the node.
-- - Heal.antt (src/heal.rs): the sample of the watcher, its ticks over any list of samples, and the calls
--   of a report, over whatever the server answers to them. Slot.antt is the watcher beside the dial loop.
-- - Monitor.antt (src/monitor.rs): the methods of the monitor capability over the next three. Cli.antt is
--   what a program that is run answers.
-- - System.antt (src/system.rs), Docker.antt (src/docker.rs) and K8s.antt (src/k8s.rs): what the program
--   reads of the lines of /proc, of the rows of `docker ps` and of the JSON of `kubectl`. Json.antt is the
--   JSON value that they ask; its parser is a parameter.
--
-- They meet where the program makes them meet: the gate is in front of FileIo and Terminal, the deny
-- list of Main names the directory of Store, the grant of Enroll keeps its credential in a store, and
-- Runner asks a source of Credentials or Enroll for the bearer of each dial. The device grant relies on
-- `StoreLaws`, which the store in memory and the store in a file both keep, and the sample of Heal is
-- over the probes of System, Docker and K8s.
--
-- Text is a list of code points, and numbers are natural numbers: a time that is cast to 64 bits wraps
-- at 2 ^ 64, and a number that is read from text is refused from there on. The jitter is
-- exact, in thousandths, where the code multiplies by a float. The loops run over lists of answers, so
-- none takes fuel but the decimal digits of a 32-bit number, which are ten at most.
--
-- Floats are a type with the operations that the program uses of them.
--
-- Not modelled: the log lines, apart from the two whose text may make the program panic; the grace of
-- 200 ms after a closing frame; paths whose names are
-- not valid UTF-8, which `to_string_lossy` would change; whether a program that `monitor` runs comes to
-- an end; the wire protocol and the enrollment protocol, which are libraries.
mod Prelude
pub mod FilePath
pub mod Wire
pub mod Gate
pub mod FileIo
pub mod Runtime
pub mod Enroll
pub mod Config
pub mod Main
pub mod Node
pub mod Heal
pub mod Terminal
pub mod System
pub mod Json
pub mod Cli
pub mod Docker
pub mod K8s
pub mod Monitor
