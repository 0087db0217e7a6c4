-- ===== src/Base/Masks.antt =====
-- `&` with a network mask: the bits above a place, and shifts of a number by its high part.
use Prim.Native.Nat.{
  ℕ, zero, suc, ◌+◌, ◌-◌, ◌*◌, ◌/◌, ◌%◌, ◌^◌, ◌≤◌, ◌<◌, min, bit_and, digits, bit_and-bitwise,
}
use mathlib.Core.Path.{◌≡◌, refl, ap, sym, ◌∙◌}
use mathlib.Core.Logic.{◌↔◌}
use native.Mathlib.Omega.{arith}
use native.Mathlib.Nat.{
  pow-suc, div-div-eq-div-mul, div-lt_iff_lt-mul, eq_of_mul-eq-mul_right, mul_assoc,
}

-- What `bit_and` stands for, with its rounds given.
abbrev rounds : ℕ → ℕ → ℕ → ℕ
rounds = digits (λ b. zero) min

-- Any two numbers of rounds that are enough give the same.
rounds_enough : (n m a b : ℕ) → a ≤ n → a ≤ m → rounds n a b ≡ rounds m a b
rounds_enough zero zero a b p q = refl
rounds_enough zero (suc m) zero b p q = refl
rounds_enough (suc n) zero zero b p q = refl
rounds_enough (suc n) (suc m) zero b p q = refl
rounds_enough zero m (suc a) b p q = absurd (omega arith)
rounds_enough (suc n) zero (suc a) b p q = absurd (omega arith)
rounds_enough (suc n) (suc m) (suc a) b p q =
    omega (arith, rounds_enough n m (suc a / 2) (b / 2) (omega arith) (omega arith))

-- The lowest bit and the others.
pub bit_and-halves : (a b : ℕ) → bit_and a b ≡ bit_and (a / 2) (b / 2) * 2 + min (a % 2) (b % 2)
bit_and-halves zero b = omega (arith, bit_and-bitwise 0 b, bit_and-bitwise 0 (b / 2))
bit_and-halves (suc a) b =
    let half = suc a / 2 in
    omega (
      arith,
      bit_and-bitwise (suc a) b,
      bit_and-bitwise half (b / 2),
      rounds_enough a half half (b / 2) (omega arith) (omega arith),
    )

bit_and_none : (n a : ℕ) → a ≤ n → bit_and a 0 ≡ 0
bit_and_none n zero h = refl
bit_and_none zero (suc a) h = absurd (omega arith)
bit_and_none (suc n) (suc a) h =
    omega (arith, bit_and-halves (suc a) 0, bit_and_none n (suc a / 2) (omega arith))

-- The same where the second number is odd, and where it is even.
bit_and-odd : (a b c : ℕ) → b ≡ c * 2 + 1 → bit_and a b ≡ bit_and (a / 2) c * 2 + a % 2
bit_and-odd a b c e =
    let half : b / 2 ≡ c = omega (arith, e) in
    omega (arith, bit_and-halves a b, e, ap (bit_and (a / 2)) half)

bit_and-even : (a b c : ℕ) → b ≡ c * 2 → bit_and a b ≡ bit_and (a / 2) c * 2
bit_and-even a b c e =
    let half : b / 2 ≡ c = omega (arith, e) in
    omega (arith, bit_and-halves a b, e, ap (bit_and (a / 2)) half)

pub pow_pos : (k : ℕ) → 0 < 2 ^ k
pow_pos zero = omega arith
pow_pos (suc k) = omega (arith, pow-suc 2 k, pow_pos k)

-- `&` with `j` ones changes no number of `j` bits.
bit_and_ones : (j a : ℕ) → a < 2 ^ j → bit_and a (2 ^ j - 1) ≡ a
bit_and_ones zero a h = omega (arith, bit_and_none a a (omega arith))
bit_and_ones (suc j) a h =
    let double = pow-suc 2 j in
    omega (
      arith,
      bit_and-odd a (2 ^ suc j - 1) (2 ^ j - 1) (omega (arith, double, pow_pos j)),
      bit_and_ones j (a / 2) (omega (arith, double)),
    )

-- `&` with a mask that ends in `k` zeroes.
bit_and_shifted : (k a m : ℕ) → bit_and a (m * 2 ^ k) ≡ bit_and (a / 2 ^ k) m * 2 ^ k
bit_and_shifted zero a m =
    let one : m * 2 ^ 0 ≡ m = omega arith in
    let keep : a / 2 ^ 0 ≡ a = omega arith in rw (one, keep) (omega arith)
bit_and_shifted (suc k) a m =
    let double : 2 ^ suc k ≡ 2 ^ k * 2 = pow-suc 2 k in
    let mask : m * 2 ^ suc k ≡ m * 2 ^ k * 2 = rw double (sym (mul_assoc m (2 ^ k) 2)) in
    let high : a / 2 / 2 ^ k ≡ a / 2 ^ suc k =
      div-div-eq-div-mul a 2 (2 ^ k) ∙ ap (λ (t : ℕ). a / t) (omega (arith, double)) in
    let found = bit_and (a / 2 ^ suc k) m in
    bit_and-even a (m * 2 ^ suc k) (m * 2 ^ k) mask
    ∙ ap (λ (t : ℕ). t * 2) (bit_and_shifted k (a / 2) m ∙ ap (λ (t : ℕ). bit_and t m * 2 ^ k) high)
    ∙ mul_assoc found (2 ^ k) 2
    ∙ ap (λ (t : ℕ). found * t) (sym double)

-- A mask of `j` ones and then `k` zeroes.
abbrev pub high_mask : ℕ → ℕ → ℕ
high_mask j k = (2 ^ j - 1) * 2 ^ k

-- What the mask leaves of a number of `j + k` bits.
pub bit_and-high_mask :
    (j k a : ℕ) → a < 2 ^ j * 2 ^ k → bit_and a (high_mask j k) ≡ a / 2 ^ k * 2 ^ k
bit_and-high_mask j k a h =
    bit_and_shifted k a (2 ^ j - 1)
    ∙ ap (λ (t : ℕ). t * 2 ^ k) (bit_and_ones j (a / 2 ^ k) ((div-lt_iff_lt-mul (pow_pos k)).1 h))

-- Two numbers agree under the mask if and only if they have the same high part.
pub bit_and-high_mask_iff :
    (j k a b : ℕ)
    → a < 2 ^ j * 2 ^ k
    → b < 2 ^ j * 2 ^ k
    → (bit_and a (high_mask j k) ≡ bit_and b (high_mask j k)) ↔ (a / 2 ^ k ≡ b / 2 ^ k)
bit_and-high_mask_iff j k a b ha hb =
    let left = bit_and-high_mask j k a ha in
    let right = bit_and-high_mask j k b hb in
    (
      λ e.
          eq_of_mul-eq-mul_right (2 ^ k) (pow_pos k) (a / 2 ^ k) (b / 2 ^ k) (sym left ∙ e ∙ right),
      λ e. left ∙ ap (λ (t : ℕ). t * 2 ^ k) e ∙ sym right,
    )
