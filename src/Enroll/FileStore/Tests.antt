-- ===== src/Enroll/FileStore/Tests.antt =====
-- The file store over a serialisation.
use zyris_docker.Prelude.{none}
use zyris_docker.Prelude.Text.{codes}
use zyris_docker.FilePath.{components}
use zyris_docker.Runtime.Store.{for_server}
use zyris_docker.Runtime.Store.FileStore.{file_store}
use zyris_docker.Enroll.Stored.{StoreLaws}
use zyris_docker.Enroll.FileStore.{file_store-StoreLaws}
use zyris_docker.Enroll.FileStore.Encoding.{encode, decode, reads_back}

file_store-StoreLaws_example : StoreLaws (
    file_store encode decode 0o644
      (for_server components (λ name. none) (codes "wss://a") (codes "default")))
file_store-StoreLaws_example =
    file_store-StoreLaws encode decode 0o644 reads_back components (λ name. none) (codes "wss://a")
      (codes "default")
