-- ===== src/Runtime/Store/Errors.antt =====
-- The store's interface and errors, and where the credential file is.
use zyris_docker.Prelude.{
  ℕ, ◌+◌, ◌/◌, ◌%◌, zero, suc, Bool, true, false, Option, none, some, [], ◌∷◌, ◌++◌, leb,
  if◌then◌else◌, Result, ok,
}
use zyris_docker.Prelude.Text.{Text, codes}
use zyris_docker.FilePath.{FilePath, normal, push}
use zyris_docker.FilePath.Display.{display}
use zyris_docker.Runtime.Credentials.{IoError, Env, nonempty}
use zyris_docker.Runtime.Credential.{Credential}
use zyris_docker.Runtime.Slug.{file_name}

abbrev pub credential_version : ℕ
credential_version = 2

abbrev default_credential_dir : Text
default_credential_dir = codes "/var/lib/zyris-docker"

abbrev path_or : (Text → FilePath) → Option Text → Text → FilePath
path_or read_path none fallback = read_path fallback
path_or read_path (some v) fallback = read_path v

-- `credential_dir`
unfoldable pub credential_dir : (Text → FilePath) → Env → FilePath
unfolding nonempty
credential_dir read_path env =
    path_or read_path (nonempty (env (codes "ZYRIS_CONFIG_DIR"))) default_credential_dir

pub data CredentialStoreError : Type 0 where
  refused unusable : Text → CredentialStoreError

-- `CredentialStoreError::is_discardable`
unfoldable pub is_discardable : CredentialStoreError → Bool
is_discardable (refused message) = false
is_discardable (unusable message) = true

-- The text that a store error displays as.
unfoldable pub store_message : CredentialStoreError → Text
store_message (refused message) = message
store_message (unusable message) = message

-- The trait `CredentialStore`.
pub record CredentialStore : Type 1 where
  pub State : Type 0
  pub load : State → Result CredentialStoreError (Option Credential) × State
  pub save : Credential → State → Result CredentialStoreError (Unit {0}) × State
  pub clear : State → Result CredentialStoreError (Unit {0}) × State
  pub describe : State → Text

-- `MemoryCredentialStore`, which the program's own tests build on.
abbrev pub memory_store : CredentialStore
memory_store = record {
  State = Option Credential;
  load = λ held. (ok held, held);
  save = λ credential held. (ok tt, some credential);
  clear = λ held. (ok tt, none);
  describe = λ held. codes "memory (this credential is lost on restart)";
}

pub data StoreError : Type 0 where
  permissive : FilePath → ℕ → StoreError
  unknown_version : ℕ → StoreError
  corrupt : Text → StoreError
  io : IoError → StoreError

-- `{mode:04o}`; a mode here is below 0o1000.
unfoldable pub octal4 : ℕ → Text
octal4 mode =
    (b'0' + mode / 512 % 8)
    ∷ (b'0' + mode / 64 % 8)
    ∷ (b'0' + mode / 8 % 8)
    ∷ (b'0' + mode % 8)
    ∷ []

-- The decimal digits of a number below 10 ^ fuel.
unfoldable pub decimal_digits : ℕ → ℕ → Text
decimal_digits zero n = []
decimal_digits (suc fuel) n =
    let front = decimal_digits fuel (n / 10) in
    if leb n 9 then (b'0' + n) ∷ [] else front ++ (b'0' + n % 10) ∷ []

-- A `u32` in decimal.
unfoldable pub decimal : ℕ → Text
unfolding decimal_digits
decimal n = decimal_digits 10 n

-- `impl Display for StoreError`
unfoldable pub show_store_error : StoreError → Text
unfolding octal4 decimal
show_store_error (permissive path mode) =
    codes "credential file "
    ++ (display path
        ++ (codes " is readable by other users (mode "
            ++ (octal4 mode ++ (codes "); run: chmod 600 " ++ display path))))
show_store_error (unknown_version found) =
    codes "credential file was written by a newer version ("
    ++ (decimal found ++ (codes ", expected " ++ (decimal credential_version ++ codes ")")))
show_store_error (corrupt error) = codes "credential file is corrupt: " ++ error
show_store_error (io error) = error.shown

-- `impl From<StoreError> for CredentialStoreError`
unfoldable pub classify : StoreError → CredentialStoreError
unfolding show_store_error
classify (permissive path mode) = refused (show_store_error (permissive path mode))
classify (unknown_version found) = unusable (show_store_error (unknown_version found))
classify (corrupt error) = unusable (show_store_error (corrupt error))
classify (io error) = unusable (show_store_error (io error))

-- `FileCredentialStore::for_server`: the one path of this deployment and profile.
unfoldable pub for_server : (Text → FilePath) → Env → Text → Text → FilePath
unfolding credential_dir push
for_server read_path env server_url profile =
    push (credential_dir read_path env) (normal (file_name server_url profile))
