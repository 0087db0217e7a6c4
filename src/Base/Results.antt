-- ===== src/Base/Results.antt =====
-- `anyhow::Result` with the errors of a component as a data type.
use native.Mathlib.Omega.{arith}
use mathlib.Core.Logic.{◌⊎◌, inl, inr}
use mathlib.Core.Path.{◌≡◌, refl}
use mathlib.Core.Bool.{Bool, true, false}
use mathlib.Core.Option.{Option, none, some}

pub data Result {ℓ κ} (E : Type ℓ) (A : Type κ) : Type (ℓ ⊔ κ) where
  ok : A → Result E A
  err : E → Result E A

-- `?` on a result; a failing first step is the result of the whole.
infixl 5 ◌>>=◌ ◌>>◌
abbrev pub ◌>>=◌ {ℓ κ μ} :
    {E : Type ℓ} {A : Type κ} {B : Type μ} → Result E A → (A → Result E B) → Result E B
◌>>=◌ r next = elim r [ ok a ↦ next a | err e ↦ err e ]

-- `ensure!` as a step with nothing to hand on.
abbrev pub ensure {ℓ} : {E : Type ℓ} → Bool → E → Result E (Unit {0})
ensure holds e = elim holds [ true ↦ ok tt | false ↦ err e ]

abbrev pub ◌>>◌ {ℓ κ} : {E : Type ℓ} {B : Type κ} → Result E (Unit {0}) → Result E B → Result E B
check >> rest = elim check [ ok _ ↦ rest | err e ↦ err e ]

-- `Result::map_err`, as `?` applies it between error types.
abbrev pub map_err {ℓ κ μ} :
    {E : Type ℓ} {F : Type κ} {A : Type μ} → (E → F) → Result E A → Result F A
map_err f r = elim r [ ok a ↦ ok a | err e ↦ err (f e) ]

-- `Option::ok_or_else`
abbrev pub ok_or {ℓ κ} : {E : Type ℓ} {A : Type κ} → Option A → E → Result E A
ok_or o e = elim o [ none ↦ err e | some a ↦ ok a ]

-- The steps of a chain that succeeds: the rest from what the first step gave.
pub ok-parts {ℓ κ μ} :
    {E : Type ℓ} {A : Type κ} {B : Type μ} (next : A → Result E B) (r : Result E A) {b : B}
    → (r >>= next) ≡ ok b
    → (a : A) × (next a ≡ ok b) × (r ≡ ok a)
ok-parts next (ok a) e = (a, e, refl)
ok-parts next (err x) e = cc

pub Result-cases {ℓ κ} :
    {E : Type ℓ} {A : Type κ} (r : Result E A) → ((a : A) × (r ≡ ok a)) ⊎ ((e : E) × (r ≡ err e))
Result-cases (ok a) = inl (a, refl)
Result-cases (err e) = inr (e, refl)

abbrev pub is_some {ℓ} : {A : Type ℓ} → Option A → Bool
is_some none = false
is_some (some a) = true

-- `Option::or`
abbrev pub or_else {ℓ} : {A : Type ℓ} → Option A → Option A → Option A
or_else none b = b
or_else (some a) b = some a

pub ok_injective {ℓ κ} :
    {E : Type ℓ} {A : Type κ} {a b : A} → ◌≡◌ {A = Result E A} (ok a) (ok b) → a ≡ b
ok_injective e = ground (arith, e)

pub ok_or-parts {ℓ} :
    {E : Type 0} {A : Type ℓ} (o : Option A) (x : E) {a : A} → ok_or o x ≡ ok a → o ≡ some a
ok_or-parts none x e = cc
ok_or-parts (some b) x e = ground (arith, e)
