-- ===== src/Core/Runs.antt =====
-- Concrete runs of the accounting kernel, and its theorems at concrete inputs.
use aerion.Base.{
  ℕ, ◌+◌, ◌-◌, ◌*◌, ◌/◌, ◌^◌, ◌≤◌, ◌<◌, ◌≡◌, refl, ◌⊎◌, true, false, ◌||◌, none, some, List, [],
  ◌∷◌, arith, get_elem?, lookup, contains, take, replicate, ◌++◌, Bool-cases, inl, inr, sym, ap,
  ◌∙◌, bytes_beq, bytes_beq_iff, Result, ok, err, bytes_eq, nat_eq,
}
use aerion.Base.Text.{Text, ascii, trim, Text}
use aerion.Net.{IpAddr, v4, to_string}
use aerion.Core.Types.{
  CoreUser, CoreUserLimits, no_limits, UserState, Shared, ProxyCore, Heap, SessionSlot, upload,
  download, password, credential_empty, quota_exceeded, authentication_failed, CoreEventBus,
  ByteRateLimiter, CoreError,
}
use aerion.Core.Types
use aerion.Core.Table.Validation.{IsListed, NoCollision}
use aerion.Core.Events.{
  empty_bus, send, deliver, BusOp, subscribes, dispatches, drops, run_ops, run_spec, inboxes,
  run_ops-run_spec,
}
use aerion.Core.Limiter.{reserve, reserve_all, reserve_paced, total_bytes}
use aerion.Core.User.{
  new_state, open_session, close_session, enter, normalize_ip, is_cancelled, cancel_sessions,
  source_ips, cancel_slots,
}
use aerion.Core.User.Limits.{open_session-online-le, open_session-online_ips, distinct_ips}
use aerion.Core.User.Sessions.{close_session-open_session, cancel_slots-is_cancelled, controls_of}
use aerion.Core.User.Traffic.{record_traffic, reserve_rate, settle, reserve_total}
use aerion.Core.User.Traffic.Quota.{Settled, record_traffic-Settled}
use aerion.Core.User.Traffic.Interleave.{System, Reach-sums, pending_all, here, next, reserves}
use aerion.Core.Table.{
  replace_users, authenticate_with_source, authenticate_password_hash_from,
  open_session_with_source, install, install_one, apply_user_update, cancel_absent,
}
use aerion.Core.Table.Grouping.{group_users, add_user, enter_user, enter_credential, no_users}
use aerion.Core.Table.Replacement.{replace_users-group_users}
use aerion.Core.Table.Update.{replace_users-SameTraffic}
use aerion.Core.Table.Hot.{SameTraffic}
use aerion.Core.Table.Authentication.{authenticate-owner_of, authenticate_password_hash-owner_of}
use aerion.Core.Table.Removal.{replace_users-cancels_absent}

abbrev quiet : Shared
quiet = record { controls = []; events = empty_bus }

abbrev narrow : CoreUserLimits
narrow = record no_limits {
  quota_bytes = some 100;
  max_online_sessions = some 1;
  max_online_ips = some 1;
}

unlimited : UserState
unlimited = new_state (password (ascii "ann") (ascii "key")) (ascii "key" ∷ []) 0

abbrev ann : UserState
ann = record {
  id = ascii "ann";
  credentials = ascii "key" ∷ [];
  upload = 10;
  download = 20;
  total = 30;
  online = 0;
  online_ips = 0;
  limits = narrow;
  upload_limiter = record { bytes_per_second = 5; next = 0 };
  download_limiter = record { bytes_per_second = 0; next = 0 };
  sessions = [];
}

abbrev home : IpAddr
home = v4 0x7f000001

opens : open_session ann quiet 1 (some home) ≡ ok (enter ann quiet 1 (some (normalize_ip home)))
unfolding open_session enter source_ips
opens = refl

-- The mapped form of an address counts as the address.
mapped_home : normalize_ip (IpAddr.v6 0xffff_7f00_0001) ≡ ascii "127.0.0.1"
unfolding normalize_ip to_string
mapped_home = refl

open_session-online-le_example : (enter ann quiet 1 (some (normalize_ip home))).0.online ≤ 1
open_session-online-le_example =
    open_session-online-le ann quiet 1 (some home) 1
      (enter ann quiet 1 (some (normalize_ip home))).0
      (enter ann quiet 1 (some (normalize_ip home))).1
      (enter ann quiet 1 (some (normalize_ip home))).2 refl opens

open_session-online_ips_example :
    ((contains (source_ips ann.sessions) (normalize_ip home) ≡ true)
      × ((enter ann quiet 1 (some (normalize_ip home))).0.online_ips ≡ distinct_ips ann))
    ⊎ ((enter ann quiet 1 (some (normalize_ip home))).0.online_ips ≤ 1)
open_session-online_ips_example =
    open_session-online_ips ann quiet 1 home 1 (enter ann quiet 1 (some (normalize_ip home))).0
      (enter ann quiet 1 (some (normalize_ip home))).1
      (enter ann quiet 1 (some (normalize_ip home))).2 refl refl opens

close_session-open_session_example :
    (close_session
      (enter ann quiet 1 (some (normalize_ip home))).0
      (enter ann quiet 1 (some (normalize_ip home))).1
      1).0
    ≡ ann
unfolding source_ips
close_session-open_session_example =
    close_session-open_session ann quiet 1 (some home)
      (enter ann quiet 1 (some (normalize_ip home))).0
      (enter ann quiet 1 (some (normalize_ip home))).1
      (enter ann quiet 1 (some (normalize_ip home))).2 (record { sessions = refl; ips = refl }) refl
      opens

abbrev two_controls : Shared
two_controls = record quiet { controls = false ∷ false ∷ [] }

abbrev one_session : List (ℕ × SessionSlot)
one_session = (7, record { control = 1; source_ip = none }) ∷ []

cancel_slots-is_cancelled_example :
    is_cancelled (cancel_slots (ascii "ann") two_controls one_session) 0
    ≡ (contains (controls_of one_session) 0 || is_cancelled two_controls 0)
unfolding controls_of
cancel_slots-is_cancelled_example =
    cancel_slots-is_cancelled (ascii "ann") two_controls one_session 0 (omega arith)

-- Two receivers, of which the first is dropped before the second event.
abbrev two_receivers : List BusOp
two_receivers =
    dispatches (Types.users_replaced [])
    ∷ subscribes
    ∷ dispatches (Types.users_replaced (ascii "ann" ∷ []))
    ∷ subscribes
    ∷ drops 0
    ∷ dispatches (Types.users_replaced (ascii "bob" ∷ []))
    ∷ []

run_ops-run_spec_example :
    inboxes (run_ops empty_bus two_receivers).subscribers
    ≡ (Types.users_replaced (ascii "bob" ∷ []) ∷ []) ∷ []
unfolding run_spec
run_ops-run_spec_example = run_ops-run_spec two_receivers

abbrev seconds : ℕ → ℕ → ℕ
seconds bytes rate = bytes * 1000000000 / rate

abbrev slow : ByteRateLimiter
slow = record { bytes_per_second = 5; next = 4 }

-- 10 bytes, 5 bytes and 5 bytes at 5 bytes a second.
reserve_paced_example :
    (t : ℕ) × ((reserve seconds (reserve_all seconds slow ((10, 6) ∷ (5, 90) ∷ [])) 5 95).1
      ≡ some t)
    × (20 * 10 ^ 9 ≤ (t - 6 + 3) * 5)
unfolding total_bytes
reserve_paced_example =
    reserve_paced seconds slow 10 6 ((5, 90) ∷ []) 5 95 (omega arith) (omega arith) (omega arith)
      (omega arith, (omega arith, (omega arith, tt)))

record_traffic-Settled_example :
    Settled
      (reserve_rate seconds ann upload 40 0)
      upload
      40
      (record_traffic seconds (λ u s. (u, s)) ann two_controls upload 40 1 1 0)
unfolding reserve_rate
record_traffic-Settled_example =
    record_traffic-Settled seconds (λ u s. (u, s)) ann two_controls upload 40 1 1 0 (omega arith)
      refl (omega arith)

over_quota :
    (record_traffic seconds (λ u s. (u, s)) ann two_controls upload 71 1 1 0).1 ≡ err quota_exceeded
unfolding record_traffic settle reserve_total reserve_rate
over_quota = refl

Reach-sums_example :
    let y : System = record { user = record ann { total = 50 }; pending = (upload, 20) ∷ [] } in
    (y.user.upload + y.user.download + pending_all y.pending ≡ y.user.total)
    × (y.user.total < 2 ^ 64)
unfolding reserve_total
Reach-sums_example =
    Reach-sums ann (record { user = record ann { total = 50 }; pending = (upload, 20) ∷ [] })
      (omega arith) (next here (reserves upload 20 (record ann { total = 50 }) refl))

abbrev running : ProxyCore
running = record {
  users = (ascii "ann", 0) ∷ [];
  credentials = record {
    users = (ascii "key", ascii "ann") ∷ [];
    password_hashes = (ascii "key", ascii "key") ∷ [];
  };
  session_seq = 1;
  heap = record {
    states =
        record ann { online = 1; sessions = (1, record { control = 0; source_ip = none }) ∷ [] }
        ∷ [];
    shared = record quiet { controls = false ∷ [] };
  };
}

abbrev padded_hash : Text → List ℕ
padded_hash t = take 32 (t ++ replicate 32 0)

abbrev row : Text → Text → CoreUser
row id credential = record {
  id = id;
  credential = credential;
  upload_limit_bps = none;
  download_limit_bps = none;
  quota_bytes = none;
  max_online_sessions = none;
  max_online_ips = none;
}

abbrev rotated : List CoreUser
rotated = row (ascii "ann") (ascii "new") ∷ row (ascii "bob") (ascii "pad ") ∷ []

abbrev others : List CoreUser
others = row (ascii "bob") (ascii "k2") ∷ []

abbrev or_running : Result CoreError ProxyCore → ProxyCore
or_running (ok core) = core
or_running (err e) = running

rotation : ProxyCore
rotation = or_running (replace_users padded_hash running rotated 9)

removal : ProxyCore
removal = or_running (replace_users padded_hash running others 9)

rotates : replace_users padded_hash running rotated 9 ≡ ok rotation
unfolding rotation replace_users group_users add_user enter_user enter_credential install
    install_one apply_user_update cancel_absent trim cancel_sessions send deliver
rotates = refl

removes : replace_users padded_hash running others 9 ≡ ok removal
unfolding removal replace_users group_users add_user enter_user enter_credential install install_one
    apply_user_update cancel_absent trim cancel_sessions send deliver
removes = refl

authenticate-owner_of_example :
    authenticate_with_source rotation (ascii " new ") none
    ≡ open_session_with_source rotation (ascii "ann") none
unfolding trim
authenticate-owner_of_example =
    authenticate-owner_of padded_hash running rotated 9 rotation rotates (ascii " new ") none

rotated_listed : (c : Text) → IsListed rotated c → (ascii "new" ≡ c) ⊎ (ascii "pad " ≡ c)
rotated_listed c h = elim (Bool-cases (bytes_beq (ascii "new") c)) [
  | inl e ↦ inl ((bytes_beq_iff (ascii "new") c).0 e)
  | inr e ↦ elim (Bool-cases (bytes_beq (ascii "pad ") c)) [
    | inl e' ↦ inr ((bytes_beq_iff (ascii "pad ") c).0 e')
    | inr e' ↦ absurd (ground (arith, e, e', h))
  ]
]

hashes_differ : padded_hash (ascii "new") ≡ padded_hash (ascii "pad ") → ⊥
hashes_differ e = ground (arith, e)

rotated-NoCollision : NoCollision padded_hash rotated
rotated-NoCollision a b l m e = elim (rotated_listed a l) [
  | inl p ↦ elim (rotated_listed b m) [
    | inl q ↦ sym p ∙ q
    | inr q ↦ absurd (hashes_differ (ap padded_hash p ∙ e ∙ sym (ap padded_hash q)))
  ]
  | inr p ↦ elim (rotated_listed b m) [
    | inl q ↦ absurd (hashes_differ (ap padded_hash q ∙ sym e ∙ sym (ap padded_hash p)))
    | inr q ↦ sym p ∙ q
  ]
]

-- The credential "pad " of bob is accepted, and no text and no hash lets bob in.
authenticate_password_hash-owner_of_example :
    authenticate_password_hash_from rotation (padded_hash (ascii "pad ")) home
    ≡ (rotation, err authentication_failed)
unfolding trim
authenticate_password_hash-owner_of_example =
    authenticate_password_hash-owner_of padded_hash running rotated 9 rotation rotates
      (ascii "pad ") (ascii "bob") home rotated-NoCollision refl

replace_users-SameTraffic_example :
    (v : UserState) × (lookup (ascii "ann") rotation.users ≡ some 0)
    × (get_elem? rotation.heap.states 0 ≡ some v)
    × SameTraffic
        (record ann { online = 1; sessions = (1, record { control = 0; source_ip = none }) ∷ [] })
        v
replace_users-SameTraffic_example =
    replace_users-SameTraffic padded_hash running rotated 9 rotation (ascii "ann") 0 _ rotates refl
      refl refl

replace_users-cancels_absent_example : is_cancelled removal.heap.shared 0 ≡ true
unfolding controls_of
replace_users-cancels_absent_example =
    replace_users-cancels_absent padded_hash running others 9 removal (ascii "ann") 0 0 _ removes
      refl refl refl (omega arith) refl

refused :
    replace_users padded_hash running
      (row (ascii "ann") (ascii "k") ∷ row (ascii "bob") (ascii "k") ∷ [])
      9
    ≡ err Types.duplicate_credential
unfolding replace_users group_users add_user enter_user enter_credential trim
refused = refl

-- A list with one credential twice is refused as a whole.
replace_users-group_users_example :
    group_users padded_hash no_users
      (row (ascii "ann") (ascii "k") ∷ row (ascii "bob") (ascii "k") ∷ [])
    ≡ err Types.duplicate_credential
replace_users-group_users_example =
    replace_users-group_users padded_hash running
      (row (ascii "ann") (ascii "k") ∷ row (ascii "bob") (ascii "k") ∷ []) 9
      Types.duplicate_credential refused
