-- ===== src/Runtime/Credentials/Validate.antt =====
-- `validate_credential` on every branch.
use zyris_docker.Prelude.{
  true, false, ◌≡◌, refl, sym, reverse, ◌↔◌, [], ◌∷◌, ◌++◌, arith, ok, err, All,
}
use zyris_docker.Prelude.Text.{
  Text, codes, trim, is_empty, is_whitespace, starts_with, starts_with_append,
}
use zyris_docker.Prelude.Trim.{StartsClear, trim_padded}
use zyris_docker.Runtime.Credentials.{
  needs_operator, fatal, credential_prefix, validate_credential, not_a_credential,
}

starts-nonempty : (s : Text) → starts_with s credential_prefix ≡ true → is_empty s ≡ false
unfolding starts_with is_empty
starts-nonempty [] h = cc
starts-nonempty (c ∷ s) h = refl

-- A text passes exactly when what is between its outer whitespace begins with `zc_`, and then that
-- is the credential. An all-blank text is for an operator to mend, and any other is fatal.
pub validate_lem :
    (raw source secret : Text)
    → ((validate_credential raw source ≡ ok secret)
        ↔ ((secret ≡ trim raw) × (starts_with (trim raw) credential_prefix ≡ true)))
      × (is_empty (trim raw) ≡ true
          → validate_credential raw source ≡ err (needs_operator (source ++ codes " is empty")))
      × (is_empty (trim raw) ≡ false
          → starts_with (trim raw) credential_prefix ≡ false
          → validate_credential raw source ≡ err (fatal (not_a_credential source)))
unfolding validate_credential
validate_lem raw source secret = ((passed, passes), blank, wrong)
  where
    passed :
        validate_credential raw source ≡ ok secret
        → (secret ≡ trim raw) × (starts_with (trim raw) credential_prefix ≡ true)
    passed e = ground arith

    passes :
        (secret ≡ trim raw) × (starts_with (trim raw) credential_prefix ≡ true)
        → validate_credential raw source ≡ ok secret
    passes (same, h) = rw (starts-nonempty (trim raw) h, h, same)

    blank :
        is_empty (trim raw) ≡ true
        → validate_credential raw source ≡ err (needs_operator (source ++ codes " is empty"))
    blank h = rw h

    wrong :
        is_empty (trim raw) ≡ false
        → starts_with (trim raw) credential_prefix ≡ false
        → validate_credential raw source ≡ err (fatal (not_a_credential source))
    wrong h k = rw (h, k)

prefix_clear : (body : Text) → StartsClear is_whitespace (credential_prefix ++ body)
unfolding is_whitespace
prefix_clear body = refl

-- A `zc_` credential with no whitespace at its end is read whole out of a file that pads it with
-- whitespace, such as a trailing newline.
pub validate_padded :
    (pre body post source : Text)
    → All (λ c. is_whitespace c ≡ true) pre
    → All (λ c. is_whitespace c ≡ true) post
    → StartsClear is_whitespace (reverse (credential_prefix ++ body))
    → validate_credential (pre ++ ((credential_prefix ++ body) ++ post)) source
      ≡ ok (credential_prefix ++ body)
validate_padded pre body post source hpre hpost last =
    (validate_lem _ source (credential_prefix ++ body)).0.1
      (sym trimmed, rw trimmed (starts_with_append credential_prefix body))
  where
    trimmed : trim (pre ++ ((credential_prefix ++ body) ++ post)) ≡ credential_prefix ++ body
    trimmed =
        trim_padded pre (credential_prefix ++ body) post hpre hpost (prefix_clear body) last
          (λ e. cc)
