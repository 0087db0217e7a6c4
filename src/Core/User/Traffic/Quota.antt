-- ===== src/Core/User/Traffic/Quota.antt =====
-- The quota and the counters across one `record_traffic`.
use aerion.Base.{
  ℕ, ◌+◌, ◌^◌, ◌<◌, ◌≡◌, ◌≢◌, refl, ◌⊎◌, inl, inr, true, false, arith, Result, ok, err, Bool-cases,
  ◌==◌,
}
use aerion.Core.Types.{
  UserState, Shared, TrafficDirection, upload, download, CoreError, session_cancelled,
  quota_exceeded,
}
use aerion.Core.User.{is_cancelled}
use aerion.Core.User.Traffic.{
  record_traffic, settle, reserve_rate, reserve_total, add_traffic, within_quota,
}

-- The two counters make up the total, which fits a u64.
pub record IsBalanced (u : UserState) : Type 0 where
  pub balanced : u.upload + u.download ≡ u.total
  pub fits : u.total < 2 ^ 64

abbrev pub counter : UserState → TrafficDirection → ℕ
counter u upload = u.upload
counter u download = u.download

-- What one settled record did to the state that it found: counted and within the quota, or refused
-- with the state as it was.
abbrev pub Settled :
    UserState → TrafficDirection → ℕ → (UserState × Shared) × Result CoreError (Unit {0}) → Type 0
Settled u d bytes (after, ok _) =
    (counter after.0 d ≡ counter u d + bytes)
    × (after.0.total ≡ u.total + bytes)
    × (within_quota u.limits.quota_bytes (u.total + bytes) ≡ true)
    × IsBalanced after.0
Settled u d bytes (after, err e) = (after.0 ≡ u) × (e ≢ session_cancelled → e ≡ quota_exceeded)

pub reserve_total-cases :
    (u : UserState) (bytes : ℕ)
    → ((u.total + bytes < 2 ^ 64)
        × (within_quota u.limits.quota_bytes (u.total + bytes) ≡ true)
        × (reserve_total u bytes ≡ ok (record u { total = u.total + bytes })))
      ⊎ (reserve_total u bytes ≡ err quota_exceeded)
unfolding reserve_total
reserve_total-cases u bytes = ground arith

-- The counter of one direction moves by exactly the bytes: below 2 ^ 64 it cannot wrap.
add_traffic-IsBalanced :
    (u : UserState) (d : TrafficDirection) (bytes : ℕ)
    → IsBalanced u
    → u.total + bytes < 2 ^ 64
    → let v = add_traffic (record u { total = u.total + bytes }) d bytes in
      (counter v d ≡ counter u d + bytes) × (v.total ≡ u.total + bytes) × IsBalanced v
unfolding add_traffic
add_traffic-IsBalanced u upload bytes b h = (omega arith, refl, omega arith)
add_traffic-IsBalanced u download bytes b h = (omega arith, refl, omega arith)

settle-Settled :
    (d : TrafficDirection) (bytes session_id control : ℕ) (u : UserState) (s : Shared)
    → IsBalanced u
    → Settled u d bytes (settle d bytes session_id control u s)
unfolding settle
settle-Settled d bytes session_id control u s b = elim (Bool-cases (is_cancelled s control)) [
  | inl e ↦ rw e (refl, λ other. absurd (other refl))
  | inr e ↦ elim (reserve_total-cases u bytes) [
    | inl (fits, quota, eq) ↦
        let (moved, total, balanced) = add_traffic-IsBalanced u d bytes b fits in
        rw (e, eq) (moved, total, quota, balanced)
    | inr eq ↦ rw (e, eq) (refl, λ _. refl)
  ]
]

-- A record of at least one byte, at a session that was not cancelled, meets the balanced state that
-- the other tasks left while it slept. If it succeeds, the counter of its direction and the total have
-- grown by exactly its bytes, the new total is within the quota of that moment, and the state is
-- balanced again. If it fails, that state is unchanged, and the error is a cancellation or the quota.
pub record_traffic-Settled :
    (delay : ℕ → ℕ → ℕ) (meanwhile : UserState → Shared → UserState × Shared) (u : UserState)
    (s : Shared) (d : TrafficDirection) (bytes session_id control now : ℕ)
    → 0 < bytes
    → is_cancelled s control ≡ false
    → IsBalanced (meanwhile (reserve_rate delay u d bytes now) s).0
    → Settled
        (meanwhile (reserve_rate delay u d bytes now) s).0
        d
        bytes
        (record_traffic delay meanwhile u s d bytes session_id control now)
unfolding record_traffic
record_traffic-Settled delay meanwhile u s d bytes session_id control now pos active b =
    let (u', s') = meanwhile (reserve_rate delay u d bytes now) s in
    let more : (bytes == 0) ≡ false = ground arith in
    rw (more, active) (settle-Settled d bytes session_id control u' s' b)
