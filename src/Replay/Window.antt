-- ===== src/Replay/Window.antt =====
-- The cache against its specification: a log of what was accepted, read through the window of `ttl`.
use aerion.Base.{
  ℕ, suc, ◌-◌, ◌≤◌, ◌≡◌, refl, sym, ap, inl, inr, false, List, [], ◌∷◌, ◌++◌, arith, ltb, leb,
  if◌then◌else◌, length, length-append, contains, contains-append, Result, ok, err, PartialEq,
  Bool-cases,
}
use aerion.Replay.{ReplayCache, ReplayError, replayed, full, without, expire, insert}

module _ {ℓ} {K : Type ℓ} where
  abbrev pub keys_of : List (ℕ × K) → List K
  keys_of [] = []
  keys_of ((t, k) ∷ r) = k ∷ keys_of r

  -- The entries that are at most `ttl` old.
  abbrev pub recent : ℕ → ℕ → List (ℕ × K) → List (ℕ × K)
  recent ttl now [] = []
  recent ttl now ((seen, k) ∷ r) =
      if ltb ttl (now - seen) then recent ttl now r else (seen, k) ∷ recent ttl now r

  -- Times do not fall along the list, from `lo` to `hi`.
  abbrev pub Ascending : ℕ → ℕ → List (ℕ × K) → Type 0
  Ascending lo hi [] = lo ≤ hi
  Ascending lo hi ((t, k) ∷ r) = (lo ≤ t) × Ascending t hi r

module _ {ℓ} {K : Type ℓ} ⦃e : PartialEq K⦄ where
  -- No key twice.
  abbrev pub Distinct : List K → Type 0
  Distinct [] = Unit {0}
  Distinct (k ∷ ks) = (contains ks k ≡ false) × Distinct ks

  -- The two containers of a cache hold the same keys, each once, in the order of their times.
  pub record IsCoherent (now : ℕ) (c : ReplayCache K) : Type ℓ where
    pub same : c.keys ≡ keys_of c.expiry
    pub once : Distinct (keys_of c.expiry)
    pub ordered : Ascending 0 now c.expiry
    pub bounded : length c.expiry ≤ c.capacity

  -- The specification keeps no queue and no set: it looks through the whole log.
  abbrev pub spec_insert :
      ℕ → ℕ → List (ℕ × K) → K → ℕ → List (ℕ × K) × Result ReplayError (Unit {0})
  spec_insert ttl capacity log key now =
      let live = recent ttl now log in
      if contains (keys_of live) key
      then (live, err replayed)
      else if leb capacity (length live)
      then (live, err full)
      else (live ++ ((now, key) ∷ []), ok tt)

  without_absent : (k : K) (ks : List K) → contains ks k ≡ false → without k ks ≡ ks
  without_absent k [] h = refl
  without_absent k (x ∷ xs) h = ground (arith, without_absent k xs, Bool-cases (e.eq x k))

  without_head : (k : K) (ks : List K) → contains ks k ≡ false → without k (k ∷ ks) ≡ ks
  without_head k ks h = ground (arith, without_absent k ks h, e.eq_iff k k)

  recent_all :
      (ttl lo hi now : ℕ) (l : List (ℕ × K))
      → Ascending lo hi l
      → ltb ttl (now - lo) ≡ false
      → recent ttl now l ≡ l
  recent_all ttl lo hi now [] a h = refl
  recent_all ttl lo hi now ((t, k) ∷ r) (le, a) h = ground (arith, recent_all ttl t hi now r a)

  -- On a queue in the order of time, popping from the front leaves just the recent entries.
  expire-recent :
      (ttl lo hi now : ℕ) (l : List (ℕ × K))
      → Ascending lo hi l
      → Distinct (keys_of l)
      → expire ttl now (keys_of l) l ≡ (keys_of (recent ttl now l), recent ttl now l)
  unfolding expire
  expire-recent ttl lo hi now [] a d = refl
  expire-recent ttl lo hi now ((t, k) ∷ r) (le, a) (fresh, d) =
      elim (Bool-cases (ltb ttl (now - t))) [
        | inl old ↦
            ground (arith, without_head k (keys_of r) fresh, expire-recent ttl t hi now r a d)
        | inr young ↦ ground (arith, recent_all ttl t hi now r a young)
      ]

  length-keys_of : (l : List (ℕ × K)) → length (keys_of l) ≡ length l
  length-keys_of [] = refl
  length-keys_of (x ∷ l) = ap suc (length-keys_of l)

  recent-contains :
      (ttl now : ℕ) (k : K) (l : List (ℕ × K))
      → contains (keys_of l) k ≡ false
      → contains (keys_of (recent ttl now l)) k ≡ false
  recent-contains ttl now k [] h = refl
  recent-contains ttl now k ((t, j) ∷ r) h = ground (arith, recent-contains ttl now k r)

  recent-Distinct :
      (ttl now : ℕ) (l : List (ℕ × K))
      → Distinct (keys_of l)
      → Distinct (keys_of (recent ttl now l))
  recent-Distinct ttl now [] d = tt
  recent-Distinct ttl now ((t, k) ∷ r) (fresh, d) = elim (Bool-cases (ltb ttl (now - t))) [
    | inl old ↦ rw old (recent-Distinct ttl now r d)
    | inr young ↦ rw young (recent-contains ttl now k r fresh, recent-Distinct ttl now r d)
  ]

  Ascending-weaken :
      (lo lo' hi hi' : ℕ) (l : List (ℕ × K))
      → lo' ≤ lo
      → hi ≤ hi'
      → Ascending lo hi l
      → Ascending lo' hi' l
  Ascending-weaken lo lo' hi hi' [] p q a = omega arith
  Ascending-weaken lo lo' hi hi' ((t, k) ∷ r) p q (le, a) =
      (omega arith, Ascending-weaken t t hi hi' r (omega arith) q a)

  recent-Ascending :
      (ttl now lo hi : ℕ) (l : List (ℕ × K))
      → Ascending lo hi l
      → Ascending lo hi (recent ttl now l)
  recent-Ascending ttl now lo hi [] a = a
  recent-Ascending ttl now lo hi ((t, k) ∷ r) (le, a) = elim (Bool-cases (ltb ttl (now - t))) [
    | inl old ↦ rw old (
        Ascending-weaken t lo hi hi (recent ttl now r) le (omega arith)
          (recent-Ascending ttl now t hi r a))
    | inr young ↦ rw young (le, recent-Ascending ttl now t hi r a)
  ]

  Ascending-snoc :
      (lo hi : ℕ) (k : K) (l : List (ℕ × K))
      → Ascending lo hi l
      → Ascending lo hi (l ++ ((hi, k) ∷ []))
  Ascending-snoc lo hi k [] a = (a, omega arith)
  Ascending-snoc lo hi k ((t, j) ∷ r) (le, a) = (le, Ascending-snoc t hi k r a)

  Distinct-snoc :
      (k : K) (l : List K) → Distinct l → contains l k ≡ false → Distinct (l ++ (k ∷ []))
  Distinct-snoc k [] d h = (refl, tt)
  Distinct-snoc k (x ∷ l) (fresh, d) h = (
    ground (arith, contains-append x l (k ∷ []), e.eq_iff x k, e.eq_iff k x),
    Distinct-snoc k l d (ground arith),
  )

  keys_of-snoc :
      (t : ℕ) (k : K) (l : List (ℕ × K)) → keys_of (l ++ ((t, k) ∷ [])) ≡ keys_of l ++ (k ∷ [])
  keys_of-snoc t k [] = refl
  keys_of-snoc t k ((s, j) ∷ l) = ap (◌∷◌ j) (keys_of-snoc t k l)

  length-recent-le : (ttl now : ℕ) (l : List (ℕ × K)) → length (recent ttl now l) ≤ length l
  length-recent-le ttl now [] = omega arith
  length-recent-le ttl now ((t, k) ∷ l) = ground (arith, length-recent-le ttl now l)

  -- From a coherent cache, at a time not before its last entry: `insert` answers and keeps what the
  -- specification does on the log, and the cache stays coherent. So a key is accepted only if it was
  -- not accepted within the last `ttl`, no unexpired key is dropped to make room, and the queue and
  -- the set never outgrow the capacity.
  pub insert-spec_insert :
      (c : ReplayCache K) (key : K) (last now : ℕ)
      → IsCoherent last c
      → last ≤ now
      → ((insert c key now).0.expiry ≡ (spec_insert c.ttl c.capacity c.expiry key now).0)
        × ((insert c key now).1 ≡ (spec_insert c.ttl c.capacity c.expiry key now).1)
        × IsCoherent now (insert c key now).0
  unfolding insert
  insert-spec_insert c key last now v le =
      let ascending = Ascending-weaken 0 0 last now c.expiry (omega arith) le v.ordered in
      let l = recent c.ttl now c.expiry in
      let run : expire c.ttl now c.keys c.expiry ≡ (keys_of l, l) =
        rw v.same (expire-recent c.ttl 0 now now c.expiry ascending v.once) in
      let size : length (keys_of l) ≡ length l = length-keys_of l in
      let once = recent-Distinct c.ttl now c.expiry v.once in
      let ordered = recent-Ascending c.ttl now 0 now c.expiry ascending in
      let kept : IsCoherent now (record c { keys = keys_of l; expiry = l }) = record {
        same = refl;
        once = once;
        ordered = ordered;
        bounded = omega (arith, v.bounded, length-recent-le c.ttl now c.expiry);
      } in
      elim (Bool-cases (contains (keys_of l) key)) [
        | inl seen ↦ rw (run, seen) (refl, refl, kept)
        | inr fresh ↦ elim (Bool-cases (leb c.capacity (length l))) [
          | inl crowded ↦ rw (run, fresh, size, crowded) (refl, refl, kept)
          | inr room ↦
              rw (run, fresh, size, room)
                (
                  refl,
                  refl,
                  record {
                    same = sym (keys_of-snoc now key l);
                    once = rw (keys_of-snoc now key l) (Distinct-snoc key (keys_of l) once fresh);
                    ordered = Ascending-snoc 0 now key l ordered;
                    bounded = rw (length-append l) (ground (arith, room));
                  },
                )
        ]
      ]
