-- ===== src/Base/Bytes.antt =====
-- Bytes, and the fixed-width big-endian integers of `to_be_bytes` and `from_be_bytes`.
use native.Mathlib.Nat.{pow-suc}
use aerion.Base.Lists.{length, All, length-append}
use Prim.Native.Nat.{ℕ, zero, suc, ◌+◌, ◌*◌, ◌/◌, ◌%◌, ◌^◌, ◌<◌}
use mathlib.Core.Path.{◌≡◌, refl, ap, ◌∙◌}
use mathlib.Core.List.{List, [], ◌∷◌, ◌++◌}
use native.Mathlib.Omega.{arith}

abbrev pub IsByte : ℕ → Type 0
IsByte b = b < 256

abbrev pub IsBytes : List ℕ → Type 0
IsBytes = All IsByte

-- The last `k` bytes of `n`, the highest first.
unfoldable pub be_bytes : ℕ → ℕ → List ℕ
be_bytes zero n = []
be_bytes (suc k) n = be_bytes k (n / 256) ++ ((n % 256) ∷ [])

pub from_be_acc : ℕ → List ℕ → ℕ
from_be_acc acc [] = acc
from_be_acc acc (b ∷ bs) = from_be_acc (acc * 256 + b) bs

unfoldable pub from_be : List ℕ → ℕ
unfolding from_be_acc
from_be bs = from_be_acc 0 bs

from_be_acc-append :
    (acc : ℕ) (xs ys : List ℕ) → from_be_acc acc (xs ++ ys) ≡ from_be_acc (from_be_acc acc xs) ys
unfolding from_be_acc
from_be_acc-append acc [] ys = refl
from_be_acc-append acc (x ∷ xs) ys = from_be_acc-append (acc * 256 + x) xs ys

from_be-snoc : (xs : List ℕ) (y : ℕ) → from_be (xs ++ (y ∷ [])) ≡ from_be xs * 256 + y
unfolding from_be
from_be-snoc xs y = from_be_acc-append 0 xs (y ∷ [])

pub length-be_bytes : (k n : ℕ) → length (be_bytes k n) ≡ k
unfolding be_bytes
length-be_bytes zero n = refl
length-be_bytes (suc k) n =
    omega
      (arith, length-append (be_bytes k (n / 256)) ((n % 256) ∷ []), length-be_bytes k (n / 256))

-- Reading back what was written, for a number that fits.
pub from_be-be_bytes : (k n : ℕ) → n < 256 ^ k → from_be (be_bytes k n) ≡ n
unfolding be_bytes
from_be-be_bytes zero n h = unfold from_be in omega arith
from_be-be_bytes (suc k) n h =
    from_be-snoc (be_bytes k (n / 256)) (n % 256)
    ∙ omega (arith, from_be-be_bytes k (n / 256) (omega (arith, pow-suc 256 k)))

pub IsBytes-append : (xs ys : List ℕ) → IsBytes xs → IsBytes ys → IsBytes (xs ++ ys)
IsBytes-append [] ys hx hy = hy
IsBytes-append (x ∷ xs) ys hx hy = (hx.0, IsBytes-append xs ys hx.1 hy)

pub be_bytes-IsBytes : (k n : ℕ) → IsBytes (be_bytes k n)
unfolding be_bytes
be_bytes-IsBytes zero n = tt
be_bytes-IsBytes (suc k) n =
    IsBytes-append (be_bytes k (n / 256)) ((n % 256) ∷ []) (be_bytes-IsBytes k (n / 256))
      (omega arith)

from_be_acc-lt :
    (acc b : ℕ) (bs : List ℕ) → IsBytes bs → acc < b → from_be_acc acc bs < b * 256 ^ length bs
unfolding from_be_acc
from_be_acc-lt acc b [] h lt = omega arith
from_be_acc-lt acc b (x ∷ xs) h lt = omega (
  arith,
  from_be_acc-lt (acc * 256 + x) (b * 256) xs h.1 (omega arith),
  ap (λ (t : ℕ). b * t) (pow-suc 256 (length xs)),
)

-- A number read from `k` bytes fits `k` bytes.
pub from_be-lt : (bs : List ℕ) → IsBytes bs → from_be bs < 256 ^ length bs
unfolding from_be
from_be-lt bs h = omega (arith, from_be_acc-lt 0 1 bs h (omega arith))

-- The highest byte in front: writing splits a number as reading puts it together.
be_bytes-cons :
    (k b m : ℕ) → b < 256 → m < 256 ^ k → be_bytes (suc k) (b * 256 ^ k + m) ≡ b ∷ be_bytes k m
unfolding be_bytes
be_bytes-cons zero b m hb hm = ap (λ (x : ℕ). x ∷ []) (omega arith)
be_bytes-cons (suc k) b m hb hm =
    let powers = pow-suc 256 k in
    let scaled = ap (λ (t : ℕ). b * t) powers in
    let low : (b * 256 ^ suc k + m) % 256 ≡ m % 256 = omega (arith, powers, scaled) in
    let high : (b * 256 ^ suc k + m) / 256 ≡ b * 256 ^ k + m / 256 =
      omega (arith, powers, scaled) in
    rw (low, high)
      (ap (λ xs. xs ++ ((m % 256) ∷ [])) (be_bytes-cons k b (m / 256) hb (omega (arith, powers))))

from_be_acc_step :
    (acc b : ℕ) (bs : List ℕ) → from_be_acc acc (b ∷ bs) ≡ from_be_acc (acc * 256 + b) bs
unfolding from_be_acc
from_be_acc_step acc b bs = refl

from_be_acc_first : (b : ℕ) (bs : List ℕ) → from_be_acc 0 (b ∷ bs) ≡ from_be_acc b bs
from_be_acc_first b bs = from_be_acc_step 0 b bs ∙ ap (λ (t : ℕ). from_be_acc t bs) (omega arith)

from_be_acc-add :
    (acc : ℕ) (bs : List ℕ) → from_be_acc acc bs ≡ acc * 256 ^ length bs + from_be_acc 0 bs
unfolding from_be_acc
from_be_acc-add acc [] = omega arith
from_be_acc-add acc (b ∷ bs) = omega (
  arith,
  from_be_acc_step acc b bs,
  from_be_acc_first b bs,
  from_be_acc-add (acc * 256 + b) bs,
  from_be_acc-add b bs,
  ap (λ (t : ℕ). acc * t) (pow-suc 256 (length bs)),
)

-- Writing back what was read gives the bytes again.
pub be_bytes-from_be : (bs : List ℕ) → IsBytes bs → be_bytes (length bs) (from_be bs) ≡ bs
be_bytes-from_be [] h = unfold be_bytes in refl
be_bytes-from_be (b ∷ bs) (hb, h) =
    let split : from_be (b ∷ bs) ≡ b * 256 ^ length bs + from_be bs =
      unfold from_be in from_be_acc_first b bs ∙ from_be_acc-add b bs in
    rw split (
      be_bytes-cons (length bs) b (from_be bs) hb (from_be-lt bs h)
      ∙ ap (◌∷◌ b) (be_bytes-from_be bs h))
