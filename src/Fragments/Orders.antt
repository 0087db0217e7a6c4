-- ===== src/Fragments/Orders.antt =====
-- Orders of arrival of all fragments of a packet.
use aerion.Base.{
  ℕ, zero, suc, ◌≤◌, ◌<◌, ◌≡◌, refl, ap, inl, inr, true, Option, none, some, List, [], ◌∷◌, arith,
  length, get_elem?, set, replicate, contains, nat_eq, Bool-cases,
}
use aerion.Base.Text.{Text}
use aerion.Fragments.Assembly.{AllFree, AllFree-set, missing}

-- Each of the indices below `n` once.
abbrev pub IsOrder : ℕ → List ℕ → Type 0
IsOrder n order = AllFree (replicate n none) order × (length order ≡ n)

missing-set :
    (cs : List (Option Text)) (i : ℕ) (v : Text)
    → get_elem? cs i ≡ some none
    → missing cs ≡ suc (missing (set cs i (some v)))
missing-set [] i v h = cc
missing-set (none ∷ cs) zero v h = refl
missing-set (some c ∷ cs) zero v h = cc
missing-set (none ∷ cs) (suc i) v h = ap suc (missing-set cs i v h)
missing-set (some c ∷ cs) (suc i) v h = missing-set cs i v h

AllFree-le :
    (cs : List (Option Text)) (order : List ℕ) → AllFree cs order → length order ≤ missing cs
AllFree-le cs [] h = omega arith
AllFree-le cs (i ∷ order) (free, once, h) = omega (
  arith,
  missing-set cs i [] free,
  AllFree-le (set cs i (some [])) order (AllFree-set cs i (some []) order once h),
)

missing-replicate : (n : ℕ) → missing (replicate n none) ≡ n
missing-replicate zero = refl
missing-replicate (suc n) = ap suc (missing-replicate n)

-- The first fragment is among them.
pub IsOrder-first : (n : ℕ) (order : List ℕ) → 0 < n → IsOrder n order → contains order 0 ≡ true
IsOrder-first zero order h valid = absurd (omega arith)
IsOrder-first (suc n) order h (free, whole) = elim (Bool-cases (contains order 0)) [
  | inl e ↦ e
  | inr e ↦ absurd (
      omega (
        arith,
        whole,
        missing-replicate n,
        AllFree-le (some [] ∷ replicate n none) order
            (AllFree-set (replicate (suc n) none) 0 (some []) order e free),
      ))
]
