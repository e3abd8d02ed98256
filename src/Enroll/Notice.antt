-- ===== src/Enroll/Notice.antt =====
-- The block that shows a code to a person, `notice` and `time_left` of src/enroll.rs. Times are in
-- milliseconds.
use zyris_docker.Prelude.{ℕ, ◌+◌, ◌-◌, ◌*◌, ◌/◌, ◌≤◌, ◌<◌, ◌++◌, arith}
use zyris_docker.Prelude.Text.{Text, codes}
use zyris_docker.Runtime.Store.{decimal_digits}

-- `zyris::Code`
pub record Code : Type 0 where
  pub user_code : Text
  pub verification_uri : Text
  pub expires_at : ℕ

-- `time_left`: nothing, of a code that has expired.
unfoldable pub time_left : ℕ → Code → ℕ
time_left now code = code.expires_at - now

-- `as_secs().div_ceil(60)`
unfoldable pub minutes_left : ℕ → ℕ
minutes_left left = (left / 1000 + 59) / 60

-- `notice`
unfoldable pub notice : ℕ → Code → Text
unfolding time_left minutes_left decimal_digits
notice now code =
    codes
      "\n--------------------------------------------------------------\n  Authorize this node\n\n  1. Open        "
    ++ (code.verification_uri
        ++ (codes "\n  2. Enter code  "
            ++ (code.user_code
                ++ (codes "\n\n  Waiting for approval. This code expires in "
                    ++ (decimal_digits 20 (minutes_left (time_left now code))
                        ++ codes
                            " minutes.\n--------------------------------------------------------------\n")))))

-- The minutes shown are the whole seconds that are left, rounded up to minutes.
pub minutes_bounds :
    (now : ℕ) (code : Code)
    → (time_left now code / 1000 ≤ minutes_left (time_left now code) * 60)
      × (minutes_left (time_left now code) * 60 < time_left now code / 1000 + 60)
unfolding minutes_left time_left
minutes_bounds now code = (omega arith, omega arith)
