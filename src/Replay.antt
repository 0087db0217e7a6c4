-- ===== src/Replay.antt =====
-- src/replay_cache.rs: the keys of recent handshakes, in a hash set for the test and in a queue for
-- their expiry. An `Instant` is a number, so that `duration_since` is the truncated difference.
pub mod Window
mod Runs
use aerion.Base.{
  ℕ, ◌-◌, ◌≡◌, refl, Bool, true, false, Option, none, some, List, [], ◌∷◌, ◌++◌, ltb, leb,
  if◌then◌else◌, length, contains, Result, ok, err, PartialEq,
}

pub data ReplayError : Type 0 where
  replayed full : ReplayError

pub record ReplayCache {ℓ} (K : Type ℓ) : Type ℓ where
  pub keys : List K
  pub expiry : List (ℕ × K)
  pub ttl : ℕ
  pub capacity : ℕ

-- `ReplayCache::new`
unfoldable pub new_cache {ℓ} : {K : Type ℓ} → ℕ → ℕ → ReplayCache K
new_cache ttl capacity = record { keys = []; expiry = []; ttl = ttl; capacity = capacity }

module _ {ℓ} {K : Type ℓ} ⦃e : PartialEq K⦄ where
  -- `HashSet::remove`
  abbrev pub without : K → List K → List K
  without k [] = []
  without k (x ∷ xs) = if e.eq x k then without k xs else x ∷ without k xs

  -- The `while` loop: it pops entries from the front of the queue until one is not older than `ttl`.
  unfoldable pub expire : ℕ → ℕ → List K → List (ℕ × K) → List K × List (ℕ × K)
  expire ttl now keys [] = (keys, [])
  expire ttl now keys ((seen, key) ∷ rest) = elim (ltb ttl (now - seen)) [
    | true ↦ expire ttl now (without key keys) rest
    | false ↦ (keys, (seen, key) ∷ rest)
  ]

  -- `ReplayCache::insert`, with what is left of the cache on an error.
  unfoldable pub insert : ReplayCache K → K → ℕ → ReplayCache K × Result ReplayError (Unit {0})
  unfolding expire
  insert c key now =
      let (keys, expiry) = expire c.ttl now c.keys c.expiry in
      let kept = record c { keys = keys; expiry = expiry } in
      if contains keys key
      then (kept, err replayed)
      else if leb c.capacity (length keys)
      then (kept, err full)
      else (record c { keys = keys ++ (key ∷ []); expiry = expiry ++ ((now, key) ∷ []) }, ok tt)

  -- `ReplayCache::check_and_store`, with the time read under the lock.
  unfoldable pub check_and_store :
      ReplayCache K → K → ℕ → ReplayCache K × Result ReplayError (Unit {0})
  unfolding insert
  check_and_store c key now = insert c key now
