-- ===== src/Runtime/Credentials/Tests.antt =====
-- Credentials as an operator pastes them, and the theorems on them.
use zyris_docker.Prelude.{◌≡◌, refl, none, some, ◌∷◌, ◌++◌, min, take, length, err, arith}
use zyris_docker.Prelude.Text.{
  Text, codes, is_whitespace, len_utf8, trim, trim_matches, is_empty, starts_with,
}
use zyris_docker.Runtime.Credentials.{token_prefix, validate_credential, fatal, not_a_credential}
use zyris_docker.Runtime.Credentials.Prefix.{token_prefix_panics, token_prefix-ascii}

api_key_refused :
    validate_credential (codes "atk_123") (codes "the file")
    ≡ err (fatal (not_a_credential (codes "the file")))
unfolding validate_credential trim trim_matches is_whitespace is_empty starts_with
api_key_refused = refl

-- A credential of fifteen bytes.
abbrev long_token : Text
long_token = codes "zc_0123456789ab"

-- Nine characters and then one of four bytes, which ends at byte 13.
token_prefix_panics_example : token_prefix (codes "zc_012345" ++ 128512 ∷ codes "67") ≡ none
unfolding len_utf8
token_prefix_panics_example =
    token_prefix_panics (codes "zc_012345") 128512 (codes "67")
      (
        omega arith,
        (
          omega arith,
          (
            omega arith,
            (
              omega arith,
              (omega arith, (omega arith, (omega arith, (omega arith, (omega arith, tt))))),
            ),
          ),
        ),
      )
      (omega arith) (omega arith)

token_prefix-ascii_example :
    token_prefix (codes "zc_0") ≡ some (take (min (length (codes "zc_0")) 12) (codes "zc_0"))
token_prefix-ascii_example =
    token_prefix-ascii (codes "zc_0") (omega arith, (omega arith, (omega arith, (omega arith, tt))))
