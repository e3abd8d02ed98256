-- ===== src/Runtime/Runner/Report.antt =====
-- What the program says of its errors, and the signals that it listens for, of src/runtime/runner.rs
-- and src/runtime/credentials.rs.
use zyris_docker.Prelude.{Option, none, some, List, [], ◌∷◌, ◌++◌, if◌then◌else◌, Result, ok, err}
use zyris_docker.Prelude.Text.{Text, codes, text_eq}
use zyris_docker.Runtime.Credentials.{CredentialsError, needs_operator, fatal, unavailable}
use zyris_docker.Runtime.Runner.{RunError, credentials, build, refused}

-- `impl Display for CredentialsError`
unfoldable pub credentials_message : CredentialsError → Text
credentials_message (needs_operator message) = message
credentials_message (fatal message) = message
credentials_message (unavailable message) = message

-- `impl Display for RunError`; the error of a build is the text that it displays as.
unfoldable pub run_message : RunError → Text
unfolding credentials_message
run_message (credentials error) = credentials_message error
run_message (build error) = codes "could not build the node: " ++ error
run_message (refused reason) = codes "the server refused this node: " ++ reason

-- `impl Error for RunError`: what stands behind an error, as the text that it displays as.
unfoldable pub run_source : RunError → Option Text
unfolding credentials_message
run_source (credentials error) = some (credentials_message error)
run_source (build error) = some error
run_source (refused reason) = none

-- `From<CredentialsError> for RunError`
abbrev pub from_credentials : CredentialsError → RunError
from_credentials error = credentials error

-- `RunConfig::platform`, of the operating system that the build names.
unfoldable pub platform : Text → Text
platform os =
    if text_eq os (codes "linux")
    then codes "linux"
    else if text_eq os (codes "macos")
    then codes "macos"
    else if text_eq os (codes "windows")
    then codes "windows"
    else codes "other"

-- A signal that reaches the process.
pub data Signal : Type 0 where
  interrupt terminate : Signal

-- What a signal does while the program waits in `stop_requested`: it is named, or it is not listened
-- for and the system's default kills the process.
pub data Stop : Type 0 where
  named : Text → Stop
  killed : Stop
  still_waiting : Stop

-- `stop_requested` on Unix: whether the handler of SIGTERM could be registered, and the signals in the
-- order in which they come.
unfoldable pub stop_requested : Result Text (Unit {0}) → List Signal → Stop
stop_requested registered [] = still_waiting
stop_requested registered (interrupt ∷ signals) = named (codes "SIGINT")
stop_requested (ok _) (terminate ∷ signals) = named (codes "SIGTERM")
stop_requested (err error) (terminate ∷ signals) = killed
