-- ===== src/Core/User/Limits.antt =====
-- The admission limits of `open_session`: sessions and distinct source addresses.
use aerion.Base.{
  ℕ, ◌≤◌, ◌≡◌, refl, ◌⊎◌, inl, inr, true, Option, none, some, List, [], ◌∷◌, ◌++◌, arith, length,
  lookup, insert_fresh, length-insert-le, to_set, length-to_set_snoc, contains-to_set, add,
  contains, ok, nat_eq, bytes_eq, Option-cases,
}
use aerion.Base.Text.{Text}
use aerion.Net.{IpAddr}
use aerion.Core.Types.{UserState, SessionSlot, Shared}
use aerion.Core.User.{
  open_session, positive, source_ips, normalize, normalize_ip, enter, new_control,
}

-- A session that is admitted under a positive session limit leaves at most that many online.
pub open_session-online-le :
    (u : UserState) (s : Shared) (session_id : ℕ) (ip : Option IpAddr) (limit : ℕ) (u' : UserState)
    (s' : Shared) (control : ℕ)
    → positive u.limits.max_online_sessions ≡ some limit
    → open_session u s session_id ip ≡ ok (u', s', control)
    → u'.online ≤ limit
unfolding open_session enter
open_session-online-le u s session_id ip limit u' s' control h e = ground (
  arith,
  length-insert-le session_id (record { control = (new_control s).1; source_ip = normalize ip })
      u.sessions,
)

source_ips-snoc :
    (m : List (ℕ × SessionSlot)) (k c : ℕ) (ip : Text)
    → source_ips (m ++ ((k, record { control = c; source_ip = some ip }) ∷ []))
      ≡ source_ips m ++ (ip ∷ [])
unfolding source_ips
source_ips-snoc [] k c ip = refl
source_ips-snoc ((j, slot) ∷ m) k c ip = elim (Option-cases slot.source_ip) [
  | inl e ↦ ground (arith, e, source_ips-snoc m k c ip)
  | inr (t, e) ↦ ground (arith, e, source_ips-snoc m k c ip)
]

-- The distinct source addresses online.
pub distinct_ips : UserState → ℕ
distinct_ips u = length (to_set (source_ips u.sessions))

online_ips-enter :
    (u : UserState) (s : Shared) (session_id : ℕ) (ip : Text)
    → lookup session_id u.sessions ≡ none
    → (enter u s session_id (some ip)).0.online_ips
      ≡ length (add ip (to_set (source_ips u.sessions)))
unfolding enter
online_ips-enter u s session_id ip fresh =
    rw (insert_fresh session_id _ u.sessions fresh, source_ips-snoc u.sessions session_id _ ip)
      (length-to_set_snoc ip (source_ips u.sessions))

-- A new session from `source` that is admitted under a positive address limit either comes from an
-- address that was online already, and the count of distinct addresses stays as it was, or leaves at
-- most `limit` distinct addresses online.
pub open_session-online_ips :
    (u : UserState) (s : Shared) (session_id : ℕ) (source : IpAddr) (limit : ℕ) (u' : UserState)
    (s' : Shared) (control : ℕ)
    → lookup session_id u.sessions ≡ none
    → positive u.limits.max_online_ips ≡ some limit
    → open_session u s session_id (some source) ≡ ok (u', s', control)
    → ((contains (source_ips u.sessions) (normalize_ip source) ≡ true)
        × (u'.online_ips ≡ distinct_ips u))
      ⊎ (u'.online_ips ≤ limit)
unfolding open_session distinct_ips
open_session-online_ips u s session_id source limit u' s' control fresh h e = ground (
  arith,
  online_ips-enter u s session_id (normalize_ip source) fresh,
  contains-to_set (normalize_ip source) (source_ips u.sessions),
  enter u s session_id (some (normalize_ip source)),
)
