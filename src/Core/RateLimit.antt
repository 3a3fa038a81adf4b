-- ===== src/Core/RateLimit.antt =====
-- core/ratelimit.rs: a sliding window over a sorted set of the times of the requests let through.
pub mod Window
use Prim.Native.String.{String}
use pstu_backend.Prelude.{
  ℕ, ◌+◌, ◌-◌, ◌*◌, Uuid, Text, Bool, true, false, not, Option, none, some, ◌∷◌, ◌++◌, leb,
  if◌then◌else◌,
}
use pstu_backend.Core.Error.{AppError}
use pstu_backend.Core.Services.{Services, Key}
use pstu_backend.Core.Text.{to_text}
use pstu_backend.Core.App.{AppState, Action, pure, raise_if, command, update_cache, ◌>>=◌, ◌>>◌}
use pstu_backend.Store.Tx.{⊤}

-- `now_ms - window_seconds * 1000`; `none` stands for a negative number.
abbrev pub window_start : ℕ → ℕ → Option ℕ
window_start now_ms window_seconds =
    if leb (window_seconds * 1000) now_ms then some (now_ms - window_seconds * 1000) else none

module _ (S : Services) where
  open S use {Cache, expire, trim_window, zadd, print_uuid}

  -- `format!("{}:{}", now_ms, Uuid::new_v4())`
  abbrev pub member : ℕ → Uuid → Text
  member now_ms id = to_text now_ms ++ b':' ∷ print_uuid id

  -- What follows the reply of the first pipeline: the request is added to a window with room.
  unfoldable pub admit : Key → Text → ℕ → ℕ → ℕ → ℕ → Action Cache Bool
  admit key m max_requests window_seconds now_ms current_count =
      if leb max_requests current_count
      then pure false
      else do update_cache λ c. expire key (window_seconds + 5) (zadd key m now_ms c); pure true

  unfoldable pub check_sliding_window_rate_limit :
      Text → Text → ℕ → ℕ → ℕ → Uuid → Action Cache Bool
  unfolding admit
  check_sliding_window_rate_limit scope identifier max_requests window_seconds now_ms id = do
    let key = Key.rate_limit scope identifier
    reply ← command (trim_window key (window_start now_ms window_seconds))
    elim reply [
      | none ↦ pure true
      | some current_count ↦
          admit key (member now_ms id) max_requests window_seconds now_ms current_count
    ]

  -- The message names the scope and the limits; it is left out.
  unfoldable pub enforce_rate_limit : Text → Text → ℕ → ℕ → ℕ → Uuid → Action Cache ⊤
  unfolding check_sliding_window_rate_limit
  enforce_rate_limit scope identifier max_requests window_seconds now_ms id = do
    allowed ← check_sliding_window_rate_limit scope identifier max_requests window_seconds now_ms id
    raise_if (not allowed) (AppError.rate_limited "Rate limit exceeded")
