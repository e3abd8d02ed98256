-- ===== src/Runtime/Slug/Tests.antt =====
-- Slugs of deployment URLs, and the theorems on them.
use zyris_docker.Prelude.{◌≡◌, refl, ◌∷◌, ◌++◌}
use zyris_docker.Prelude.Text.{codes, is_empty, trim_matches}
use zyris_docker.FilePath.Clean.{IsName}
use zyris_docker.Runtime.Slug.{is_ascii_alphanumeric, slugify, slug_chars, slug_char, file_name}
use zyris_docker.Runtime.Slug.Safe.{file_name-IsName}
use zyris_docker.Runtime.Slug.Collisions.{file_name-separator}

url_slug : slugify (codes "wss://Attacca.example/ws/") ≡ codes "wss-attacca-example-ws"
unfolding slugify slug_chars slug_char trim_matches is_empty is_ascii_alphanumeric
url_slug = refl

file_name-IsName_example : IsName (file_name (codes "wss://a/../b") (codes "../x"))
file_name-IsName_example = file_name-IsName (codes "wss://a/../b") (codes "../x")

file_name-separator_example :
    file_name (codes "wss://my" ++ b'-' ∷ codes "host") (codes "default")
    ≡ file_name (codes "wss://my" ++ b'.' ∷ codes "host") (codes "default")
unfolding is_ascii_alphanumeric
file_name-separator_example =
    file_name-separator (codes "wss://my") (codes "host") (codes "default") b'-' b'.' refl refl
