-- ===== src/Core/User/Traffic/Interleave.antt =====
-- Records of one user on many threads: each first reserves on `total`, then adds to its counter, and
-- anything may happen between the two. `pending` holds the bytes that are reserved and not yet added.
use aerion.Base.{ℕ, ◌+◌, ◌<◌, ◌^◌, ◌≡◌, refl, List, [], ◌∷◌, ◌++◌, arith, ap, ok}
use aerion.Core.Types.{UserState, TrafficDirection, upload, download}
use aerion.Core.User.Traffic.{reserve_total, add_traffic}
use aerion.Core.User.Traffic.Quota.{IsBalanced, reserve_total-cases}

pub record System : Type 0 where
  pub user : UserState
  pub pending : List (TrafficDirection × ℕ)

-- What the other methods leave alone.
pub record SameCounters (u v : UserState) : Type 0 where
  pub upload : v.upload ≡ u.upload
  pub download : v.download ≡ u.download
  pub total : v.total ≡ u.total

pub data Step (x : System) : System → Type 0 where
  reserves :
      (d : TrafficDirection) (bytes : ℕ) (u : UserState)
      → reserve_total x.user bytes ≡ ok u
      → Step x (record { user = u; pending = (d, bytes) ∷ x.pending })
  adds :
      (front back : List (TrafficDirection × ℕ)) (d : TrafficDirection) (bytes : ℕ)
      → x.pending ≡ front ++ ((d, bytes) ∷ back)
      → Step x (record { user = add_traffic x.user d bytes; pending = front ++ back })
  other : (u : UserState) → SameCounters x.user u → Step x (record x { user = u })

pub data Reach (x : System) : System → Type 0 where
  here : Reach x x
  next : {y z : System} → Reach x y → Step y z → Reach x z

-- The bytes that are reserved and not yet added.
pub pending_all : List (TrafficDirection × ℕ) → ℕ
pending_all [] = 0
pending_all ((d, n) ∷ r) = n + pending_all r

record Inv (x : System) : Type 0 where
  sums : x.user.upload + x.user.download + pending_all x.pending ≡ x.user.total
  fits : x.user.total < 2 ^ 64

pending_all-split :
    (front back : List (TrafficDirection × ℕ)) (d : TrafficDirection) (n : ℕ)
    → pending_all (front ++ ((d, n) ∷ back)) ≡ n + pending_all (front ++ back)
unfolding pending_all
pending_all-split [] back d n = refl
pending_all-split ((e, m) ∷ front) back d n = omega (arith, pending_all-split front back d n)

adds-Inv :
    (u : UserState) (d : TrafficDirection) (n rest : ℕ)
    → u.upload + u.download + (n + rest) ≡ u.total
    → u.total < 2 ^ 64
    → let v = add_traffic u d n in (v.upload + v.download + rest ≡ v.total) × (v.total < 2 ^ 64)
unfolding add_traffic
adds-Inv u upload n rest h f = (omega arith, omega arith)
adds-Inv u download n rest h f = (omega arith, omega arith)

Step-Inv : {x y : System} → Step x y → Inv x → Inv y
unfolding pending_all
Step-Inv {x} (reserves d bytes u e) v = ground (arith, reserve_total-cases x.user bytes)
Step-Inv {x} (adds front back d bytes e) v =
    let (sums, fits) =
      adds-Inv x.user d bytes (pending_all (front ++ back))
        (omega (arith, v.sums, ap pending_all e, pending_all-split front back d bytes)) v.fits in
    record { sums = sums; fits = fits }
Step-Inv {x} (other u same) v = ground arith

Reach-Inv : {x y : System} → Inv x → Reach x y → Inv y
Reach-Inv v here = v
Reach-Inv v (next r s) = Step-Inv s (Reach-Inv v r)

-- However records and other methods interleave from a balanced state with nothing pending, the two
-- counters and the bytes still pending make up the total, and the total fits a u64: no byte is lost
-- or counted twice, and the wrapping additions to the counters never wrap.
pub Reach-sums :
    (u : UserState) (y : System)
    → IsBalanced u
    → Reach (record { user = u; pending = [] }) y
    → (y.user.upload + y.user.download + pending_all y.pending ≡ y.user.total)
      × (y.user.total < 2 ^ 64)
unfolding pending_all
Reach-sums u y b r =
    let inv = Reach-Inv (record { sums = omega (arith, b.balanced); fits = b.fits }) r in
    (inv.sums, inv.fits)
