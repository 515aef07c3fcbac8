-- ===== src/Exceptions.antt =====
-- server/exceptions.ts and common/exceptions.ts: what the modelled code throws. A message is kept
-- where it carries data; `plain` is a bare `Error` or `OttException`.
use opentogethertube_cn.Common.{String}
use opentogethertube_cn.Common.Int.{ℤ}

pub data Exception : Type 0 where
  permission_denied : String → Exception
  invalid_role : ℤ → Exception
  feature_disabled : String → Exception
  impossible_promotion : Exception
  note_not_found : Exception
  note_too_long : Exception
  too_many_notes : Exception
  video_already_queued : Exception
  video_not_found : Exception
  unsupported_subtitle_type : Exception
  unsupported_subtitle_url : Exception
  bad_api_argument : String → Exception
  client_not_found_in_room : Exception
  undo_event_unavailable : Exception
  plain : String → Exception

-- The outcome of code that may throw.
pub data Result {ℓ} (A : Type ℓ) : Type ℓ where
  ok : A → Result A
  err : Exception → Result A

infixl 5 ◌>>=◌
abbrev pub ◌>>=◌ {ℓ κ} : {A : Type ℓ} {B : Type κ} → Result A → (A → Result B) → Result B
ok a >>= f = f a
err e >>= f = err e
