-- ===== src/Core/User.antt =====
-- `UserState` of src/core.rs: opening, closing and cancelling sessions, the online counts. A method
-- runs under the user's session lock, so it is one step; `cancel_sessions` releases the lock before it
-- sends its events, and is one step here too.
pub mod Limits
pub mod Traffic
pub mod Sessions
use aerion.Base.{
  ℕ, ◌+◌, ◌≡◌, refl, Bool, true, false, not, ◌&&◌, ◌||◌, Option, none, some, List, [], ◌∷◌, ◌++◌,
  ltb, leb, if◌then◌else◌, length, set, insert, remove, lookup, values, contains, add, to_set,
  Result, ok, err, ◌>>=◌, ◌>>◌, ensure, nat_eq, bytes_eq, get_or,
}
use aerion.Base.Text.{Text, ascii, strip_prefix, strip, is_prefix}
use aerion.Net.{IpAddr, to_string}
use aerion.Core.Types.{
  CoreUser, CoreUserLimits, UserState, SessionSlot, Shared, CoreEventBus, CoreError, CoreEvent,
  session_opened, session_closed, session_cancelled, session_limit_exceeded, ip_limit_exceeded,
}
use aerion.Core.Types
use aerion.Core.Events.{send}
use aerion.Core.Limiter.{new_limiter, set_rate}

mapped_prefix : Text → ℕ
mapped_prefix s = if is_prefix (ascii "::ffff:") s then 7 else 0

-- `normalize_ip`: `trim_start_matches` drops the prefix as often as it stands there.
unfoldable pub normalize_ip : IpAddr → Text
unfolding mapped_prefix strip
normalize_ip ip = strip mapped_prefix 0 (to_string ip)

-- `SessionControl::new`: a new place at the end of the heap, not triggered.
unfoldable pub new_control : Shared → Shared × ℕ
new_control s = (record s { controls = s.controls ++ (false ∷ []) }, length s.controls)

-- `SessionControl::cancel`
unfoldable pub cancel : Shared → ℕ → Shared
cancel s control = record s { controls = set s.controls control true }

-- `SessionControl::is_cancelled`
abbrev pub is_cancelled : Shared → ℕ → Bool
is_cancelled s control = get_or s.controls control false

abbrev pub send_event : Shared → CoreEvent → Shared
send_event s e = record s { events = send s.events e }

-- `sessions.values().filter_map(|slot| slot.source_ip)`
unfoldable pub source_ips : List (ℕ × SessionSlot) → List Text
source_ips [] = []
source_ips ((k, slot) ∷ r) = elim slot.source_ip [
  | none ↦ source_ips r
  | some ip ↦ ip ∷ source_ips r
]

-- `UserState::new`
unfoldable pub new_state : CoreUser → List Text → ℕ → UserState
new_state user credentials now = record {
  id = user.id;
  credentials = credentials;
  upload = 0;
  download = 0;
  total = 0;
  online = 0;
  online_ips = 0;
  limits = Types.limits user;
  upload_limiter = new_limiter user.upload_limit_bps now;
  download_limiter = new_limiter user.download_limit_bps now;
  sessions = [];
}

-- `update_online_counts`, after the session map was replaced.
abbrev pub with_sessions : UserState → List (ℕ × SessionSlot) → UserState
with_sessions u sessions = record u {
  sessions = sessions;
  online = length sessions;
  online_ips = length (to_set (source_ips sessions));
}

-- `limit.filter(|limit| *limit > 0)`
abbrev pub positive : Option ℕ → Option ℕ
positive none = none
positive (some n) = if ltb 0 n then some n else none

session_guard : UserState → Bool
session_guard u = elim (positive u.limits.max_online_sessions) [
  | none ↦ true
  | some limit ↦ ltb (length u.sessions) limit
]

ip_guard_at : UserState → ℕ → Text → Bool
ip_guard_at u limit ip =
    let online = to_set (source_ips u.sessions) in
    if contains online ip then true else leb (length (add ip online)) limit

ip_guard : UserState → Option Text → Bool
unfolding ip_guard_at
ip_guard u none = true
ip_guard u (some ip) = elim (positive u.limits.max_online_ips) [
  | none ↦ true
  | some limit ↦ ip_guard_at u limit ip
]

abbrev pub normalize : Option IpAddr → Option Text
normalize none = none
normalize (some ip) = some (normalize_ip ip)

-- The admitted session: its slot, the counts and the event.
unfoldable pub enter : UserState → Shared → ℕ → Option Text → UserState × Shared × ℕ
enter u s session_id source_ip =
    let (s', control) = new_control s in
    (
      with_sessions u
          (insert session_id (record { control = control; source_ip = source_ip }) u.sessions),
      send_event s' (session_opened u.id session_id source_ip),
      control,
    )

-- `UserState::open_session`
unfoldable pub open_session :
    UserState → Shared → ℕ → Option IpAddr → Result CoreError (UserState × Shared × ℕ)
unfolding session_guard ip_guard
open_session u s session_id source_ip = do
  ensure (session_guard u) session_limit_exceeded
  let ip = normalize source_ip
  ensure (ip_guard u ip) ip_limit_exceeded
  ok (enter u s session_id ip)

-- `UserState::close_session`
unfoldable pub close_session : UserState → Shared → ℕ → UserState × Shared
close_session u s session_id = (
  with_sessions u (remove session_id u.sessions),
  elim (lookup session_id u.sessions) [
    | none ↦ s
    | some slot ↦ send_event s (session_closed u.id session_id slot.source_ip)
  ],
)

unfoldable pub cancel_slots : Text → Shared → List (ℕ × SessionSlot) → Shared
cancel_slots id s [] = s
cancel_slots id s ((session_id, slot) ∷ r) =
    cancel_slots id
      (cancel (send_event s (session_cancelled id session_id slot.source_ip)) slot.control) r

-- `UserState::cancel_sessions`
unfoldable pub cancel_sessions : UserState → Shared → UserState × Shared
unfolding cancel_slots
cancel_sessions u s =
    (record u { sessions = []; online = 0; online_ips = 0 }, cancel_slots u.id s u.sessions)
