-- ===== src/Runtime/Store/Load.antt =====
-- `load` on every branch, and the shade in which its errors reach the caller.
use zyris_docker.Prelude.{
  ℕ, ◌%◌, true, false, ◌≡◌, ◌≢◌, ◌⊎◌, refl, none, some, ◌==◌, Result, ok, err, arith, map_err,
  Bool-cases, inl, inr, Result-cases,
}
use zyris_docker.Prelude.Text.{Text}
use zyris_docker.FilePath.{FilePath}
use zyris_docker.Runtime.Credential.{Credential}
use zyris_docker.Runtime.Store.Errors.{
  CredentialStoreError, unusable, is_discardable, permissive, unknown_version, corrupt, classify,
  show_store_error, credential_version,
}
use zyris_docker.Runtime.Store.Disk.{File, Disk, load, load_file, parse}

-- The bits of the group and of others are the six lowest.
exposed : (mode : ℕ) → (mode % 0o1000 % 0o100 == 0) ≡ false → mode % 0o100 ≢ 0
exposed mode h = ground arith

private : (mode : ℕ) → (mode % 0o1000 % 0o100 == 0) ≡ true → mode % 0o100 ≡ 0
private mode h = ground arith

module _ (encode : Credential → Result Text Text) (decode : Text → Result Text Credential)
    (umask_mode : ℕ) where
  parse_verdict :
      (bytes : Text)
      → let answer = map_err classify (parse encode decode umask_mode bytes) in
        ((c : Credential) × (decode bytes ≡ ok c)
          × (c.version ≡ credential_version)
          × (answer ≡ ok (some c)))
        ⊎ ((e : CredentialStoreError) × (answer ≡ err e) × (is_discardable e ≡ true))
  unfolding parse classify is_discardable
  parse_verdict bytes = elim (Result-cases (decode bytes)) [
    | inr (m, e) ↦ inr (unusable (show_store_error (corrupt m)), rw (e, parse), refl)
    | inl (c, e) ↦ elim (Bool-cases (c.version == credential_version)) [
      | inl same ↦ inl (c, e, ground (arith, same), rw (e, parse, same))
      | inr other ↦
          inr (unusable (show_store_error (unknown_version c.version)), rw (e, parse, other), refl)
    ]
  ]

  -- What the caller is told about a file that is there and can be read and queried: an exposed one
  -- is refused whatever it holds, and never discarded; a private one gives its credential if it
  -- parses to the version of this build, and may be discarded otherwise.
  pub load_file_verdict :
      (path : FilePath) (disk : Disk) (file : File)
      → disk path ≡ some file
      → let answer = map_err classify (load encode decode umask_mode path none none disk) in
        ((file.mode % 0o100 ≢ 0)
          × ((e : CredentialStoreError) × (answer ≡ err e) × (is_discardable e ≡ false)))
        ⊎ ((file.mode % 0o100 ≡ 0)
            × (((c : Credential) × (decode file.bytes ≡ ok c)
                  × (c.version ≡ credential_version)
                  × (answer ≡ ok (some c)))
                ⊎ ((e : CredentialStoreError) × (answer ≡ err e) × (is_discardable e ≡ true))))
  unfolding load load_file parse classify is_discardable
  load_file_verdict path disk file e = elim (Bool-cases (file.mode % 0o1000 % 0o100 == 0)) [
    | inr open_bits ↦ inl (
      exposed file.mode open_bits,
      (classify (permissive path (file.mode % 0o1000)), rw (e, load, load_file, open_bits), refl),
    )
    | inl no_bits ↦
        inr (private file.mode no_bits, rw (e, load, load_file, no_bits) (parse_verdict file.bytes))
  ]
