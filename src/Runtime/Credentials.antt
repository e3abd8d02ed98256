-- ===== src/Runtime/Credentials.antt =====
-- Credential sources, src/runtime/credentials.rs. The environment is a function from names to
-- values, and the file system's answer to `read_to_string` is an argument.
pub mod Validate
pub mod Prefix
mod Tests
use mathlib.Core.Option
use zyris_docker.Prelude.{
  ℕ, ◌+◌, ◌-◌, min, Bool, true, false, not, Option, none, some, List, [], ◌∷◌, ◌++◌, leb, ◌==◌,
  if◌then◌else◌, Result, ok, err, ◌>>=◌,
}
use zyris_docker.Prelude.Text.{Text, codes, len, len_utf8, trim, is_empty, starts_with}
use zyris_docker.FilePath.{FilePath}
use zyris_docker.FilePath.Display.{display}

pub data CredentialsError : Type 0 where
  needs_operator fatal unavailable : Text → CredentialsError

-- The trait `Credentials`: a source with a state of its own.
pub record Credentials : Type 1 where
  pub State : Type 0
  pub bearer : State → Result CredentialsError Text × State
  pub forget_refused : State → Result CredentialsError Bool × State
  -- `none` where it panics.
  pub describe : State → Option Text

abbrev pub credential_prefix : Text
credential_prefix = codes "zc_"

abbrev token_display_prefix : ℕ
token_display_prefix = 12

-- `&text[..n]`: `none` where it panics, since byte `n` is inside a character or past the end.
unfoldable pub slice_to : ℕ → Text → Option Text
unfolding len_utf8
slice_to n [] = if n == 0 then some [] else none
slice_to n (c ∷ s) =
    let rest = slice_to (n - len_utf8 c) s in
    if n == 0 then some [] else if leb (len_utf8 c) n then Option.map (◌∷◌ c) rest else none

-- `token_prefix`
unfoldable pub token_prefix : Text → Option Text
unfolding slice_to len
token_prefix token = slice_to (min (len token) token_display_prefix) token

unfoldable pub not_a_credential : Text → Text
not_a_credential source =
    source
    ++ codes
        " does not look like a credential (expected a `zc_` prefix). API keys (`atk_`) and node tokens (`znt_`) will not work here; issue a credential under Settings → Zyris in Attacca."

-- `validate_credential`
unfoldable pub validate_credential : Text → Text → Result CredentialsError Text
validate_credential raw source =
    let secret = trim raw in
    if is_empty secret
    then err (needs_operator (source ++ codes " is empty"))
    else if not (starts_with secret credential_prefix)
    then err (fatal (not_a_credential source))
    else ok secret

-- `std::env::var(name).ok()`, and `var_os` where the value is text.
abbrev pub Env : Type 0
Env = Text → Option Text

-- `.filter(|v| !v.trim().is_empty())`
unfoldable pub nonblank : Option Text → Option Text
nonblank none = none
nonblank (some v) = if is_empty (trim v) then none else some v

-- `.filter(|v| !v.is_empty())`
unfoldable pub nonempty : Option Text → Option Text
nonempty none = none
nonempty (some v) = if is_empty v then none else some v

pub record StaticToken : Type 0 where
  pub token : Text
  pub source : Text

abbrev pub static_token : Option Text → Result CredentialsError (Option StaticToken)
static_token none = ok none
static_token (some raw) = do
  token ← validate_credential raw (codes "ZYRIS_CREDENTIAL")
  ok (some (record { token = token; source = codes "$ZYRIS_CREDENTIAL" }))

-- `StaticToken::from_env`
unfoldable pub static_from_env : Env → Result CredentialsError (Option StaticToken)
unfolding nonblank
static_from_env env = static_token (nonblank (env (codes "ZYRIS_CREDENTIAL")))

-- `impl Credentials for StaticToken`. `describe` shows the prefix alone.
abbrev pub static_credentials : Credentials
static_credentials = record {
  State = StaticToken;
  bearer = λ s. (ok s.token, s);
  forget_refused = λ s. (ok false, s);
  describe =
      λ s. Option.map (λ p. s.source ++ codes " (" ++ p ++ codes "…)") (token_prefix s.token);
}

pub data ErrorKind : Type 0 where
  not_found permission_denied other_kind : ErrorKind

-- `io::Error`, with the text that it displays as.
pub record IoError : Type 0 where
  pub kind : ErrorKind
  pub shown : Text

pub record TokenFile : Type 0 where
  pub path : FilePath

abbrev pub token_file : (Text → FilePath) → Option Text → Option TokenFile
token_file read_path none = none
token_file read_path (some v) = some (record { path = read_path v })

-- `TokenFile::from_env`
unfoldable pub token_file_from_env : (Text → FilePath) → Env → Option TokenFile
unfolding nonempty
token_file_from_env read_path env =
    token_file read_path (nonempty (env (codes "ZYRIS_CREDENTIAL_FILE")))

unfoldable pub read_trouble : FilePath → ErrorKind → Text → CredentialsError
read_trouble path not_found shown = unavailable (display path ++ codes " does not exist yet")
read_trouble path permission_denied shown =
    needs_operator (codes "cannot read " ++ display path ++ codes ": " ++ shown)
read_trouble path other_kind shown =
    unavailable (codes "cannot read " ++ display path ++ codes ": " ++ shown)

-- `TokenFile::bearer`, with the file's answer to the read of this dial; the task that reads may fail
-- itself, with a text.
unfoldable pub file_bearer :
    TokenFile → Result Text (Result IoError Text) → Result CredentialsError Text
unfolding read_trouble
file_bearer file (err failure) = err (unavailable failure)
file_bearer file (ok (ok contents)) =
    validate_credential contents (codes "the credential in " ++ display file.path)
file_bearer file (ok (err e)) = err (read_trouble file.path e.kind e.shown)

-- `impl Credentials for TokenFile`; `disk n` is what the file answers to the read of dial `n`.
abbrev pub file_credentials : (ℕ → Result Text (Result IoError Text)) → Credentials
file_credentials disk = record {
  State = TokenFile × ℕ;
  bearer = λ s. (file_bearer s.0 (disk s.1), (s.0, s.1 + 1));
  forget_refused = λ s. (ok false, s);
  describe = λ s. some (display s.0.path);
}
