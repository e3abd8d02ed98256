-- ===== src/Wire.antt =====
-- The part of `zyris`'s error type that this node builds: a code and a message.
use zyris_docker.Prelude.Text.{Text}

pub data ErrorCode : Type 0 where
  forbidden_scope invalid_params internal : ErrorCode
  other : Text → ErrorCode

pub record WireError : Type 0 where
  pub code : ErrorCode
  pub message : Text
