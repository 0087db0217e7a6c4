-- ===== src/Core/Table.antt =====
-- `ProxyCore` of src/core.rs: the user table, authentication and sessions. A clock reading is the
-- argument `now`; SHA-256 is the argument `hash`. The loops over hash maps run in insertion order.
pub mod Grouping
pub mod Validation
pub mod Update
pub mod Authentication
pub mod Removal
pub mod Hot
pub mod Replacement
use aerion.Base.{
  ℕ, ◌+◌, ◌%◌, ◌^◌, ◌≡◌, refl, Bool, true, false, not, ◌&&◌, Option, none, some, List, [], ◌∷◌,
  ◌++◌, is_empty, get_elem?, set, length, lookup, insert, keys, values, contains, add,
  if◌then◌else◌, Result, ok, err, ◌>>=◌, bytes_eq,
}
use aerion.Base.Text.{Text, trim, ascii}
use aerion.Net.{IpAddr}
use aerion.Core.Types.{
  CoreUser, CoreUserLimits, UserState, Shared, Heap, ProxyCore, ActiveSession, CoreError,
  TrafficDirection, upload, download, authentication_failed, user_not_found,
  credentials_not_grouped, users_replaced, password,
}
use aerion.Core.Types
use aerion.Core.Events.{empty_bus, subscribe}
use aerion.Core.Limiter.{set_rate}
use aerion.Core.User.{
  new_state, open_session, close_session, cancel_sessions, is_cancelled, send_event,
}
use aerion.Core.User.Traffic.{record_traffic}
use Grouping.{no_users, group_users}

-- `ProxyCore::empty`
abbrev pub empty : ProxyCore
empty = record {
  users = [];
  credentials = record { users = []; password_hashes = [] };
  session_seq = 0;
  heap = record { states = []; shared = record { controls = []; events = empty_bus } };
}

-- A method on the state at a place of the heap.
abbrev pub on_state : (UserState → Shared → UserState × Shared) → ℕ → Heap → Heap
on_state method at h = elim (get_elem? h.states at) [
  | none ↦ h
  | some u ↦
      let (u', shared) = method u h.shared in
      record { states = set h.states at u'; shared = shared }
]

-- `old_credentials != credentials` on hash sets.
unfoldable pub same_set : List Text → List Text → Bool
same_set a b = includes a b && includes b a
  where
    includes : List Text → List Text → Bool
    includes xs [] = true
    includes xs (y ∷ ys) = contains xs y && includes xs ys

unfoldable pub update_limits : CoreUserLimits → ℕ → UserState → UserState
update_limits limits now u = record u {
  limits = limits;
  upload_limiter = set_rate u.upload_limiter limits.upload_limit_bps now;
  download_limiter = set_rate u.download_limiter limits.download_limit_bps now;
}

-- `UserState::apply_user_update`
unfoldable pub apply_user_update :
    CoreUser → List Text → ℕ → UserState → Shared → UserState × Shared
unfolding same_set update_limits
apply_user_update user credentials now u s =
    if same_set u.credentials credentials
    then (update_limits (Types.limits user) now u, s)
    else let (u', s') = cancel_sessions u s in
      (update_limits (Types.limits user) now (record u' { credentials = credentials }), s')

-- One round of the second loop of `replace_users`: an existing state is updated in place, a new one made.
unfoldable pub install_one :
    List (Text × ℕ)
    → List (Text × List Text)
    → ℕ
    → Text
    → CoreUser
    → Heap
    → List (Text × ℕ)
    → Result CoreError (Heap × List (Text × ℕ))
install_one current grouped now id user h user_map = elim (lookup id grouped) [
  | none ↦ err credentials_not_grouped
  | some credentials ↦ elim (lookup user.id current) [
    | some at ↦
        ok (on_state (apply_user_update user credentials now) at h, insert user.id at user_map)
    | none ↦ ok (
      record h { states = h.states ++ (new_state user credentials now ∷ []) },
      insert user.id (length h.states) user_map,
    )
  ]
]

unfoldable pub install :
    List (Text × ℕ)
    → List (Text × List Text)
    → ℕ
    → List (Text × CoreUser)
    → Heap
    → List (Text × ℕ)
    → Result CoreError (Heap × List (Text × ℕ))
install current grouped now [] h user_map = ok (h, user_map)
install current grouped now ((id, user) ∷ r) h user_map = do
  (h', user_map') ← install_one current grouped now id user h user_map
  install current grouped now r h' user_map'

-- The third loop: the sessions of users that are gone are cancelled.
unfoldable pub cancel_absent : List Text → List (Text × ℕ) → Heap → Heap
cancel_absent active [] h = h
cancel_absent active ((id, at) ∷ r) h =
    cancel_absent active r (if contains active id then h else on_state cancel_sessions at h)

unfoldable pub replace_users :
    (Text → List ℕ) → ProxyCore → List CoreUser → ℕ → Result CoreError ProxyCore
replace_users hash core users now = do
  g ← group_users hash no_users users
  (h, user_map) ← install core.users g.credentials_by_id now g.users_by_id core.heap []
  let h' = cancel_absent (keys g.users_by_id) core.users h
  ok (record {
    users = user_map;
    credentials = record { users = g.credential_map; password_hashes = g.password_hashes };
    session_seq = core.session_seq;
    heap = record h' { shared = send_event h'.shared (users_replaced g.event_user_ids) };
  })

-- `ProxyCore::new`
unfoldable pub new : (Text → List ℕ) → List CoreUser → ℕ → Result CoreError ProxyCore
new hash users now = replace_users hash empty users now

limited : CoreUserLimits → CoreUser → CoreUser
limited limits u = record u {
  upload_limit_bps = limits.upload_limit_bps;
  download_limit_bps = limits.download_limit_bps;
  quota_bytes = limits.quota_bytes;
  max_online_sessions = limits.max_online_sessions;
  max_online_ips = limits.max_online_ips;
}

-- The loop of `from_credentials_with_limits`: empty and repeated credentials are left out.
unfoldable pub credential_entries : CoreUserLimits → List Text → List Text → List CoreUser
unfolding limited
credential_entries limits seen [] = []
credential_entries limits seen (c ∷ cs) =
    let entries = credential_entries limits (add c seen) cs in
    let others = credential_entries limits seen cs in
    if is_empty c
    then others
    else if contains seen c
    then others
    else limited limits (password c c) ∷ entries

unfoldable pub default_entries : Text → List Text → CoreUserLimits → List CoreUser
unfolding credential_entries
default_entries secret users limits =
    if is_empty secret
    then credential_entries limits [] users
    else limited limits (password (ascii "default") secret)
      ∷ credential_entries limits (secret ∷ []) users

-- `from_credentials_with_limits`; its `expect` panics on an error.
unfoldable pub from_credentials_with_limits :
    (Text → List ℕ) → Text → List Text → CoreUserLimits → ℕ → Result CoreError ProxyCore
unfolding default_entries
from_credentials_with_limits hash secret users limits now =
    new hash (default_entries secret users limits) now

-- `open_session_with_source`: the sequence number is used up also when the user is over a limit.
unfoldable pub open_session_with_source :
    ProxyCore → Text → Option IpAddr → ProxyCore × Result CoreError ActiveSession
open_session_with_source core user_id source_ip = elim (lookup user_id core.users) [
  | none ↦ (core, err user_not_found)
  | some at ↦ elim (get_elem? core.heap.states at) [
    | none ↦ (core, err user_not_found)
    | some u ↦
        let session_id : ℕ = (core.session_seq + 1) % 2 ^ 64 in
        elim (open_session u core.heap.shared session_id source_ip) [
          | err e ↦ (record core { session_seq = session_id }, err e)
          | ok (u', shared, control) ↦ (
            record core {
              session_seq = session_id;
              heap = record { states = set core.heap.states at u'; shared = shared };
            },
            ok (record { user = at; session_id = session_id; control = control }),
          )
        ]
  ]
]

-- `authenticate_with_source`, which `authenticate` and `authenticate_from` call.
unfoldable pub authenticate_with_source :
    ProxyCore → Text → Option IpAddr → ProxyCore × Result CoreError ActiveSession
authenticate_with_source core credential source_ip =
    elim (lookup (trim credential) core.credentials.users) [
      | none ↦ (core, err authentication_failed)
      | some user_id ↦ open_session_with_source core user_id source_ip
    ]

unfoldable pub authenticate_password_hash_from :
    ProxyCore → List ℕ → IpAddr → ProxyCore × Result CoreError ActiveSession
authenticate_password_hash_from core hash source =
    elim (lookup hash core.credentials.password_hashes) [
      | none ↦ (core, err authentication_failed)
      | some credential ↦ authenticate_with_source core credential (some source)
    ]

unfoldable pub known_credentials : ProxyCore → List Text
known_credentials core = keys core.credentials.users

unfoldable pub cancel_user_sessions : ProxyCore → Text → Result CoreError ProxyCore
cancel_user_sessions core user_id = elim (lookup user_id core.users) [
  | none ↦ err user_not_found
  | some at ↦ ok (record core { heap = on_state cancel_sessions at core.heap })
]

cancel_each : List ℕ → Heap → Heap
cancel_each [] h = h
cancel_each (at ∷ r) h = cancel_each r (on_state cancel_sessions at h)

unfoldable pub cancel_all_sessions : ProxyCore → ProxyCore
unfolding cancel_each
cancel_all_sessions core = record core { heap = cancel_each (values core.users) core.heap }

unfoldable pub set_limits : ProxyCore → Text → CoreUserLimits → ℕ → Result CoreError ProxyCore
set_limits core user_id limits now = elim (lookup user_id core.users) [
  | none ↦ err user_not_found
  | some at ↦
      ok (record core { heap = on_state (λ u s. (update_limits limits now u, s)) at core.heap })
]

-- `Drop for ActiveSession`, when the last clone of the handle goes.
unfoldable pub drop_session : ProxyCore → ActiveSession → ProxyCore
drop_session core a = record core {
  heap = on_state (λ u s. close_session u s a.session_id) a.user core.heap;
}

-- `subscribe_events`
unfoldable pub subscribe_events : ProxyCore → ProxyCore
subscribe_events core = record core {
  heap = record h { shared = record shared { events = subscribe shared.events } };
}
  where
    open core use {heap as h}
    open h use {shared}
