-- ===== src/Runtime/Credential.antt =====
-- `zyris::Credential`, which this node stores and presents and does not make.
use zyris_docker.Prelude.{ℕ, List}
use zyris_docker.Prelude.Text.{Text}

pub record Named : Type 0 where
  pub id : Text
  pub name : Text
  pub slug : Text

pub record Credential : Type 0 where
  pub version : ℕ
  pub secret : Text
  pub system : Named
  pub program : Named
  pub scopes : List Text
  pub owner_email : Text
