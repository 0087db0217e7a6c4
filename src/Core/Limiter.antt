-- ===== src/Core/Limiter.antt =====
-- core/limiter.rs. `delay bytes rate` stands for `Duration::from_secs_f64(bytes as f64 / rate as f64)`
-- in nanoseconds, an argument since the quotient is a float. An `Instant` and the clock are numbers.
use aerion.Base.{
  All, ℕ, zero, suc, ◌+◌, ◌-◌, ◌*◌, ◌^◌, ◌∙◌, length, ◌≤◌, ◌≡◌, ◌≢◌, ◌||◌, Option, none, some, List,
  [], ◌∷◌, arith, ltb, ◌==◌, if◌then◌else◌,
}
use native.Mathlib.Nat.{add-mul, mul-le-mul_right}
use aerion.Core.Types.{ByteRateLimiter}

unfoldable pub rate_value : Option ℕ → ℕ
rate_value none = 0
rate_value (some rate) = if ltb 0 rate then rate else 0

-- `ByteRateLimiter::new`
unfoldable pub new_limiter : Option ℕ → ℕ → ByteRateLimiter
unfolding rate_value
new_limiter bytes_per_second now = record {
  bytes_per_second = rate_value bytes_per_second;
  next = now;
}

-- A rate that does not change keeps the debt of earlier traffic.
unfoldable pub set_rate : ByteRateLimiter → Option ℕ → ℕ → ByteRateLimiter
unfolding rate_value
set_rate l bytes_per_second now = record {
  bytes_per_second = rate_value bytes_per_second;
  next = if l.bytes_per_second == rate_value bytes_per_second then l.next else now;
}

-- The part of `wait` before its `select!`: `none` lets the bytes pass at once, `some t` sleeps until t.
unfoldable pub reserve : (ℕ → ℕ → ℕ) → ByteRateLimiter → ℕ → ℕ → ByteRateLimiter × Option ℕ
reserve delay l bytes now =
    if bytes == 0 || l.bytes_per_second == 0
    then (l, none)
    else (record l { next = until }, some until)
  where
    until : ℕ
    until = (if ltb l.next now then now else l.next) + delay bytes l.bytes_per_second

-- The requests of the tasks of one limiter, in the order in which they take its lock.
pub reserve_all : (ℕ → ℕ → ℕ) → ByteRateLimiter → List (ℕ × ℕ) → ByteRateLimiter
reserve_all delay l [] = l
reserve_all delay l ((bytes, now) ∷ r) = reserve_all delay (reserve delay l bytes now).0 r

-- The time that the requests need at the given rate.
pub cost : (ℕ → ℕ → ℕ) → ℕ → List (ℕ × ℕ) → ℕ
cost delay rate [] = 0
cost delay rate ((bytes, now) ∷ r) =
    (if bytes == 0 then 0 else delay bytes rate) + cost delay rate r

-- A request that is let through sleeps until at least its own share of time after it arrived.
pub reserve_share :
    (delay : ℕ → ℕ → ℕ) (l : ByteRateLimiter) (bytes now until : ℕ)
    → (reserve delay l bytes now).1 ≡ some until
    → now + delay bytes l.bytes_per_second ≤ until
unfolding reserve
reserve_share delay l bytes now until h = ground arith

reserve_rate :
    (delay : ℕ → ℕ → ℕ) (l : ByteRateLimiter) (bytes now : ℕ)
    → (reserve delay l bytes now).0.bytes_per_second ≡ l.bytes_per_second
unfolding reserve
reserve_rate delay l bytes now = ground arith

reserve_step :
    (delay : ℕ → ℕ → ℕ) (l : ByteRateLimiter) (bytes now : ℕ)
    → l.bytes_per_second ≢ 0
    → l.next + (if bytes == 0 then 0 else delay bytes l.bytes_per_second)
      ≤ (reserve delay l bytes now).0.next
unfolding reserve
reserve_step delay l bytes now h = ground arith

reserve_all-cost :
    (delay : ℕ → ℕ → ℕ) (l : ByteRateLimiter) (requests : List (ℕ × ℕ))
    → l.bytes_per_second ≢ 0
    → l.next + cost delay l.bytes_per_second requests ≤ (reserve_all delay l requests).next
unfolding reserve_all cost
reserve_all-cost delay l [] h = omega arith
reserve_all-cost delay l ((bytes, now) ∷ r) h =
    let l' = (reserve delay l bytes now).0 in
    let same = reserve_rate delay l bytes now in
    let rest = reserve_all-cost delay l' r (ground (arith, same)) in
    omega (arith, reserve_step delay l bytes now h, rw same at rest)

reserve_all_rate :
    (delay : ℕ → ℕ → ℕ) (l : ByteRateLimiter) (requests : List (ℕ × ℕ))
    → (reserve_all delay l requests).bytes_per_second ≡ l.bytes_per_second
unfolding reserve_all
reserve_all_rate delay l [] = ground arith
reserve_all_rate delay l ((bytes, now) ∷ r) =
    reserve_all_rate delay (reserve delay l bytes now).0 r ∙ reserve_rate delay l bytes now

reserve_until :
    (delay : ℕ → ℕ → ℕ) (l : ByteRateLimiter) (bytes now : ℕ)
    → l.bytes_per_second ≢ 0
    → bytes ≢ 0
    → (t : ℕ) × ((reserve delay l bytes now).1 ≡ some t)
      × ((reserve delay l bytes now).0.next ≡ t)
      × (l.next + delay bytes l.bytes_per_second ≤ t)
      × (now + delay bytes l.bytes_per_second ≤ t)
unfolding reserve
reserve_until delay l bytes now h some_bytes =
    let until = (if ltb l.next now then now else l.next) + delay bytes l.bytes_per_second in
    (until, ground arith, ground arith, ground arith, ground arith)

-- The bytes of the requests.
unfoldable pub total_bytes : List (ℕ × ℕ) → ℕ
total_bytes [] = 0
total_bytes ((bytes, now) ∷ r) = bytes + total_bytes r

-- The delay of a request falls short of its exact time at the rate by at most a nanosecond.
abbrev pub IsExact : (ℕ → ℕ → ℕ) → ℕ → ℕ × ℕ → Type 0
IsExact delay rate (bytes, now) = bytes * 10 ^ 9 ≤ (delay bytes rate + 1) * rate

-- At the rate, the bytes take at most the cost and a nanosecond for each request.
total_bytes-cost :
    (delay : ℕ → ℕ → ℕ) (rate : ℕ) (requests : List (ℕ × ℕ))
    → All (IsExact delay rate) requests
    → total_bytes requests * 10 ^ 9 ≤ (cost delay rate requests + length requests) * rate
unfolding total_bytes cost
total_bytes-cost delay rate [] exact = omega arith
total_bytes-cost delay rate ((zero, now) ∷ r) (first, exact) =
    let wider =
      mul-le-mul_right {m = cost delay rate r + length r} {n = cost delay rate r + suc (length r)}
        rate (omega arith) in
    omega (arith, total_bytes-cost delay rate r exact, wider)
total_bytes-cost delay rate ((suc b, now) ∷ r) (first, exact) =
    let own = delay (suc b) rate in
    let more = cost delay rate r in
    let wider =
      mul-le-mul_right {m = (own + 1) + (more + length r)}
        {n = cost delay rate ((suc b, now) ∷ r) + suc (length r)} rate (ground arith) in
    omega (
      arith,
      total_bytes-cost delay rate r exact,
      first,
      add-mul (own + 1) (more + length r) rate,
      wider,
    )

-- At a limiter with a rate: a request arrives at `now`, others follow, and then a last one, and neither
-- the first nor the last is empty. The `delay` of each falls short of its exact time at the rate by at most
-- a nanosecond. Then the last one sleeps, until a time that is at least, but for a nanosecond for each
-- request, as long after `now` as all the bytes together take at the rate.
pub reserve_paced :
    (delay : ℕ → ℕ → ℕ) (l : ByteRateLimiter) (bytes now : ℕ) (others : List (ℕ × ℕ)) (last at : ℕ)
    → l.bytes_per_second ≢ 0
    → bytes ≢ 0
    → last ≢ 0
    → All (IsExact delay l.bytes_per_second) ((bytes, now) ∷ (last, at) ∷ others)
    → (t : ℕ) × ((reserve delay (reserve_all delay l ((bytes, now) ∷ others)) last at).1 ≡ some t)
      × ((bytes + total_bytes others + last) * 10 ^ 9
          ≤ (t - now + (2 + length others)) * l.bytes_per_second)
unfolding reserve_all
reserve_paced delay l bytes now others last at rated first_bytes last_bytes
      (first, (final, exact)) =
    let rate = l.bytes_per_second in
    let (t₀, waits, at_t₀, since, arrived) = reserve_until delay l bytes now rated first_bytes in
    let l₁ = (reserve delay l bytes now).0 in
    let l₂ = reserve_all delay l₁ others in
    let same₁ = reserve_rate delay l bytes now in
    let same₂ : l₂.bytes_per_second ≡ rate = reserve_all_rate delay l₁ others ∙ same₁ in
    let paced = reserve_all-cost delay l₁ others (ground (arith, same₁)) in
    let (t, sleeps, _, after, _) =
      reserve_until delay l₂ last at (ground (arith, same₂)) last_bytes in
    let d = delay bytes rate in
    let c = cost delay rate others in
    let d' = delay last rate in
    let spent : d + (c + d') ≤ t - now =
      omega (arith, arrived, at_t₀, rw same₁ at paced, rw same₂ at after) in
    let wider =
      mul-le-mul_right {m = (d + 1) + ((c + length others) + (d' + 1))}
        {n = t - now + (2 + length others)} rate (omega (arith, spent)) in
    (
      t,
      sleeps,
      omega (
        arith,
        first,
        final,
        total_bytes-cost delay rate others exact,
        add-mul (d + 1) ((c + length others) + (d' + 1)) rate,
        add-mul (c + length others) (d' + 1) rate,
        wider,
      ),
    )
