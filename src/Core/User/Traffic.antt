-- ===== src/Core/User/Traffic.antt =====
-- `record_traffic` of src/core.rs. Other tasks run while it sleeps in the rate limiter: they are the
-- argument `meanwhile`, any change of the user's state and of what it shares. `reserve_total` and
-- `add_traffic` are the two atomic updates after the wait; `Interleave` runs them interleaved.
pub mod Quota
pub mod Interleave
use aerion.Base.{
  ℕ, ◌+◌, ◌-◌, ◌%◌, ◌^◌, ◌≡◌, refl, Bool, true, false, not, ◌&&◌, Option, none, some, ltb, leb,
  ◌==◌, if◌then◌else◌, Result, ok, err, ◌>>=◌, ◌>>◌, ensure, get_or,
}
use aerion.Core.Types.{
  UserState, Shared, TrafficDirection, upload, download, CoreError, session_cancelled,
  quota_exceeded, traffic_recorded, ByteRateLimiter,
}
use aerion.Core.Types
use aerion.Core.Events.{dispatch}
use aerion.Core.Limiter.{reserve}
use aerion.Core.User.{is_cancelled}

limiter_of : UserState → TrafficDirection → ByteRateLimiter
limiter_of u upload = u.upload_limiter
limiter_of u download = u.download_limiter

with_limiter : UserState → TrafficDirection → ByteRateLimiter → UserState
with_limiter u upload l = record u { upload_limiter = l }
with_limiter u download l = record u { download_limiter = l }

-- The limiter's reservation, before the sleep.
unfoldable pub reserve_rate : (ℕ → ℕ → ℕ) → UserState → TrafficDirection → ℕ → ℕ → UserState
unfolding limiter_of with_limiter
reserve_rate delay u direction bytes now =
    with_limiter u direction (reserve delay (limiter_of u direction) bytes now).0

-- `limits.quota_bytes.is_none_or(|quota| *next <= quota)`
abbrev pub within_quota : Option ℕ → ℕ → Bool
within_quota none next = true
within_quota (some quota) next = leb next quota

-- `total.try_update` with `checked_add` on a u64.
unfoldable pub reserve_total : UserState → ℕ → Result CoreError UserState
reserve_total u bytes =
    if ltb (u.total + bytes) (2 ^ 64) && within_quota u.limits.quota_bytes (u.total + bytes)
    then ok (record u { total = u.total + bytes })
    else err quota_exceeded

-- The `fetch_add` of the direction's counter, which wraps.
unfoldable pub add_traffic : UserState → TrafficDirection → ℕ → UserState
add_traffic u upload bytes = record u { upload = (u.upload + bytes) % 2 ^ 64 }
add_traffic u download bytes = record u { download = (u.download + bytes) % 2 ^ 64 }

-- From the second `ensure_active` on, with the state that the task finds after its wait.
unfoldable pub settle :
    TrafficDirection
    → ℕ
    → ℕ
    → ℕ
    → UserState
    → Shared
    → (UserState × Shared) × Result CoreError (Unit {0})
settle direction bytes session_id control u s =
    if is_cancelled s control
    then ((u, s), err CoreError.session_cancelled)
    else elim (reserve_total u bytes) [
      | err e ↦ ((u, s), err e)
      | ok u' ↦
          let v = add_traffic u' direction bytes in
          let event = traffic_recorded v.id session_id direction bytes v.upload v.download in
          ((v, record s { events = dispatch s.events event }), ok tt)
    ]

unfoldable pub record_traffic :
    (ℕ → ℕ → ℕ)
    → (UserState → Shared → UserState × Shared)
    → UserState
    → Shared
    → TrafficDirection
    → ℕ
    → ℕ
    → ℕ
    → ℕ
    → (UserState × Shared) × Result CoreError (Unit {0})
record_traffic delay meanwhile u s direction bytes session_id control now =
    if bytes == 0
    then ((u, s), ok tt)
    else if is_cancelled s control
    then ((u, s), err CoreError.session_cancelled)
    else let (u', s') = meanwhile (reserve_rate delay u direction bytes now) s in
      settle direction bytes session_id control u' s'
