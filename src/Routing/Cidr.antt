-- ===== src/Routing/Cidr.antt =====
-- Networks and private addresses by the high parts of numbers.
use aerion.Base.{
  ℕ, zero, suc, ◌-◌, ◌*◌, ◌/◌, ◌^◌, ◌≤◌, ◌<◌, ◌≡◌, refl, ◌↔◌, Bool, true, ◌&&◌, arith, ◌==◌, ==_iff,
}
use aerion.Base.Masks.{high_mask, bit_and-high_mask_iff}
use aerion.Net.{IpAddr, v4, v6, IsIp}
use aerion.Routing.{prefix_to_mask, in_network, cidr_contains}
use Prim.Native.Nat.{bit_and}

-- A test of the numbers below a bound.
every : ℕ → (ℕ → Bool) → Bool
every zero test = true
every (suc n) test = test n && every n test

every_lem : (n x : ℕ) (test : ℕ → Bool) → every n test ≡ true → x < n → test x ≡ true
unfolding every
every_lem zero x test h lt = absurd (omega arith)
every_lem (suc n) x test h lt = ground (arith, every_lem n x test)

-- The mask of a prefix and the number of addresses, for each prefix length of `w` bits.
good_mask : ℕ → ℕ → Bool
unfolding prefix_to_mask
good_mask w p = (prefix_to_mask w p == (2 ^ p - 1) * 2 ^ (w - p)) && (2 ^ p * 2 ^ (w - p) == 2 ^ w)

good_masks_v4 : every 33 (good_mask 32) ≡ true
unfolding every good_mask
good_masks_v4 = refl

good_masks_v6 : every 129 (good_mask 128) ≡ true
unfolding every good_mask
good_masks_v6 = refl

IsMask : ℕ → ℕ → Type 0
IsMask w p = (prefix_to_mask w p ≡ high_mask p (w - p)) × (2 ^ p * 2 ^ (w - p) ≡ 2 ^ w)

good_mask-IsMask : (w p : ℕ) → good_mask w p ≡ true → IsMask w p
unfolding good_mask IsMask
good_mask-IsMask w p h = ground (arith, h)

in_network_iff :
    (w p network address : ℕ)
    → IsMask w p
    → network < 2 ^ w
    → address < 2 ^ w
    → (in_network w p network address ≡ true) ↔ (network / 2 ^ (w - p) ≡ address / 2 ^ (w - p))
unfolding in_network IsMask
in_network_iff w p network address (mask, size) hn ha =
    let same = bit_and-high_mask_iff p (w - p) network address (rw size hn) (rw size ha) in
    let test =
      ==_iff (bit_and network (high_mask p (w - p))) (bit_and address (high_mask p (w - p))) in
    rw mask (λ e. same.0 (test.0 e), λ e. test.1 (same.1 e))

-- The address and the network are of one family and agree in the first `prefix` bits.
abbrev pub InNetwork : IpAddr → ℕ → IpAddr → Type 0
InNetwork (v4 network) p (v4 address) = network / 2 ^ (32 - p) ≡ address / 2 ^ (32 - p)
InNetwork (v6 network) p (v6 address) = network / 2 ^ (128 - p) ≡ address / 2 ^ (128 - p)
InNetwork (v4 network) p (v6 address) = ⊥
InNetwork (v6 network) p (v4 address) = ⊥

-- What `IpCidr::parse` lets through.
abbrev pub IsNetwork : IpAddr → ℕ → Type 0
IsNetwork (v4 network) p = (network < 2 ^ 32) × (p ≤ 32)
IsNetwork (v6 network) p = (network < 2 ^ 128) × (p ≤ 128)

-- `IpCidr::contains` with a prefix length in range: exactly the addresses of the network's family that
-- agree with it in the first `prefix` bits.
pub cidr_contains_iff :
    (network : IpAddr) (prefix : ℕ) (address : IpAddr)
    → IsNetwork network prefix
    → IsIp address
    → (cidr_contains network prefix address ≡ true) ↔ InNetwork network prefix address
unfolding cidr_contains
cidr_contains_iff (v4 n) p (v4 a) (hn, hp) ha =
    in_network_iff 32 p n a
      (good_mask-IsMask 32 p (every_lem 33 p (good_mask 32) good_masks_v4 (omega (arith, hp)))) hn
      ha
cidr_contains_iff (v6 n) p (v6 a) (hn, hp) ha =
    in_network_iff 128 p n a
      (good_mask-IsMask 128 p (every_lem 129 p (good_mask 128) good_masks_v6 (omega (arith, hp))))
      hn ha
cidr_contains_iff (v4 n) p (v6 a) h ha = (λ e. cc, λ e. absurd e)
cidr_contains_iff (v6 n) p (v4 a) h ha = (λ e. cc, λ e. absurd e)
