-- ===== src/Enroll/FileStore/Encoding.antt =====
-- A serialisation of credentials that reads back what it writes: a text is written as its code points
-- plus one and a closing zero, and a list after its length.
use zyris_docker.Prelude.{ℕ, zero, suc, ◌≡◌, refl, List, [], ◌∷◌, length, Result, ok, err}
use zyris_docker.Prelude.Text.{Text, codes}
use zyris_docker.Runtime.Credential.{Credential}

write_text : Text → Text → Text
write_text [] rest = 0 ∷ rest
write_text (c ∷ t) rest = suc c ∷ write_text t rest

write_texts : List Text → Text → Text
write_texts [] rest = rest
write_texts (t ∷ ts) rest = write_text t (write_texts ts rest)

abbrev with_code : ℕ → Text × Text → Text × Text
with_code c (t, rest) = (c ∷ t, rest)

-- An end that is missing reads as the end.
read_text : Text → Text × Text
read_text [] = ([], [])
read_text (zero ∷ rest) = ([], rest)
read_text (suc c ∷ s) = with_code c (read_text s)

read_texts : ℕ → Text → List Text × Text
read_texts zero s = ([], s)
read_texts (suc n) s =
    let (t, rest) = read_text s in let (ts, last) = read_texts n rest in (t ∷ ts, last)

read_text-write_text : (t rest : Text) → read_text (write_text t rest) ≡ (t, rest)
unfolding read_text write_text
read_text-write_text [] rest = refl
read_text-write_text (c ∷ t) rest = rw (read_text-write_text t rest) refl

read_texts-write_texts :
    (ts : List Text) (rest : Text) → read_texts (length ts) (write_texts ts rest) ≡ (ts, rest)
unfolding read_texts write_texts
read_texts-write_texts [] rest = refl
read_texts-write_texts (t ∷ ts) rest =
    rw (read_text-write_text t (write_texts ts rest), read_texts-write_texts ts rest) refl

abbrev fixed_texts : Credential → List Text
fixed_texts c =
    c.secret ∷ c.owner_email ∷ c.system.id ∷ c.system.name ∷ c.system.slug ∷ c.program.id
    ∷ c.program.name ∷ c.program.slug ∷ []

unfoldable pub encode : Credential → Result Text Text
unfolding write_text write_texts
encode c = ok (c.version ∷ length c.scopes ∷ write_texts (fixed_texts c) (write_texts c.scopes []))

abbrev credential_of : ℕ → List Text → List Text → Result Text Credential
credential_of version (a ∷ b ∷ c ∷ d ∷ e ∷ f ∷ g ∷ h ∷ []) scopes = ok (record {
  version = version;
  secret = a;
  system = record { id = c; name = d; slug = e };
  program = record { id = f; name = g; slug = h };
  scopes = scopes;
  owner_email = b;
})
credential_of version texts scopes = err (codes "corrupt")

pub decode : Text → Result Text Credential
decode (version ∷ count ∷ s) =
    let (texts, rest) = read_texts 8 s in credential_of version texts (read_texts count rest).0
decode s = err (codes "corrupt")

pub reads_back : (c : Credential) → (bytes : Text) × (encode c ≡ ok bytes) × (decode bytes ≡ ok c)
unfolding encode decode
reads_back c = (
  c.version ∷ length c.scopes ∷ write_texts (fixed_texts c) (write_texts c.scopes []),
  refl,
  rw
      (
        read_texts-write_texts (fixed_texts c) (write_texts c.scopes []),
        read_texts-write_texts c.scopes [],
      )
      refl,
)
