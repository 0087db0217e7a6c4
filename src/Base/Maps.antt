-- ===== src/Base/Maps.antt =====
-- Hash maps and hash sets as association lists and lists without repetition, keys compared by `Eq`.
use Prim.Native.Nat.{ℕ, ◌+◌, ◌≤◌}
use mathlib.Core.Path.{◌≡◌, refl}
use mathlib.Core.Bool.{Bool, true, false, ◌&&◌, ◌||◌}
use mathlib.Core.Logic.{◌↔◌}
use mathlib.Core.List.{List, [], ◌∷◌, ◌++◌}
use mathlib.Core.Option.{Option, none, some}
use native.Mathlib.Omega.{arith}
use aerion.Base.Tests.{PartialEq, ◌==◌, if◌then◌else◌, Bool-cases}
use aerion.Base.Lists.{length}
use aerion.Base.Results.{is_some}

module _ {ℓ κ} {K : Type ℓ} {V : Type κ} ⦃e : PartialEq K⦄ where
  abbrev pub lookup : K → List (K × V) → Option V
  lookup k [] = none
  lookup k ((j, v) ∷ m) = if e.eq j k then some v else lookup k m

  -- `HashMap::insert`: the entry of a present key is overwritten.
  abbrev pub insert : K → V → List (K × V) → List (K × V)
  insert k v [] = (k, v) ∷ []
  insert k v ((j, w) ∷ m) = if e.eq j k then (k, v) ∷ m else (j, w) ∷ insert k v m

  abbrev pub remove : K → List (K × V) → List (K × V)
  remove k [] = []
  remove k ((j, w) ∷ m) = if e.eq j k then remove k m else (j, w) ∷ remove k m

  -- `HashMap::retain`
  abbrev pub retain : (V → Bool) → List (K × V) → List (K × V)
  retain keep [] = []
  retain keep ((j, w) ∷ m) = if keep w then (j, w) ∷ retain keep m else retain keep m

  pub lookup-retain_kept :
      (keep : V → Bool) (k : K) (v : V) (m : List (K × V))
      → lookup k m ≡ some v
      → keep v ≡ true
      → lookup k (retain keep m) ≡ some v
  lookup-retain_kept keep k v [] h kept = cc
  lookup-retain_kept keep k v ((j, w) ∷ m) h kept = ground (arith, lookup-retain_kept keep k v m)

  pub length-retain-le : (keep : V → Bool) (m : List (K × V)) → length (retain keep m) ≤ length m
  length-retain-le keep [] = omega arith
  length-retain-le keep ((j, w) ∷ m) = ground (arith, length-retain-le keep m)

  pub lookup-retain_absent :
      (keep : V → Bool) (k : K) (m : List (K × V))
      → lookup k m ≡ none
      → lookup k (retain keep m) ≡ none
  lookup-retain_absent keep k [] h = refl
  lookup-retain_absent keep k ((j, w) ∷ m) h = ground (arith, lookup-retain_absent keep k m)

  pub lookup-insert :
      (k j : K) (v : V) (m : List (K × V))
      → lookup j (insert k v m) ≡ (if e.eq k j then some v else lookup j m)
  lookup-insert k j v [] = refl
  lookup-insert k j v ((i, w) ∷ m) =
      ground (arith, e.eq_iff k j, e.eq_iff i k, e.eq_iff i j, lookup-insert k j v m)

  pub lookup-remove :
      (k j : K) (m : List (K × V)) → lookup j (remove k m) ≡ (if e.eq k j then none else lookup j m)
  lookup-remove k j [] = ground arith
  lookup-remove k j ((i, w) ∷ m) =
      ground (arith, e.eq_iff k j, e.eq_iff i k, e.eq_iff i j, lookup-remove k j m)

module _ {ℓ} {A : Type ℓ} ⦃e : PartialEq A⦄ where
  abbrev pub contains : List A → A → Bool
  contains [] a = false
  contains (x ∷ xs) a = e.eq x a || contains xs a

  -- `HashSet::insert`
  abbrev pub add : A → List A → List A
  add a xs = if contains xs a then xs else a ∷ xs

  -- `collect::<HashSet<_>>()`
  abbrev pub to_set : List A → List A
  to_set [] = []
  to_set (x ∷ xs) = add x (to_set xs)

pub pair_eq_lem : (a b : ℕ × ℕ) → (((a.0 == b.0) && (a.1 == b.1)) ≡ true) ↔ (a ≡ b)
pair_eq_lem a b = ground arith

-- Pairs of numbers as keys.
instance abbrev pub pair_eq : PartialEq (ℕ × ℕ)
pair_eq = record { eq = λ a b. (a.0 == b.0) && (a.1 == b.1); eq_iff = pair_eq_lem }

module _ {ℓ κ} {K : Type ℓ} {V : Type κ} where
  abbrev pub keys : List (K × V) → List K
  keys [] = []
  keys ((k, v) ∷ m) = k ∷ keys m

  abbrev pub values : List (K × V) → List V
  values [] = []
  values ((k, v) ∷ m) = v ∷ values m

module _ {ℓ} {A : Type ℓ} ⦃e : PartialEq A⦄ where
  pub beq_refl : (a : A) → e.eq a a ≡ true
  beq_refl a = (e.eq_iff a a).1 refl

  pub contains-add : (a b : A) (xs : List A) → contains (add a xs) b ≡ (e.eq a b || contains xs b)
  contains-add a b xs =
      ground (arith, e.eq_iff a b, Bool-cases (contains xs a), Bool-cases (contains xs b))

  pub contains-to_set : (b : A) (xs : List A) → contains (to_set xs) b ≡ contains xs b
  contains-to_set b [] = refl
  contains-to_set b (x ∷ xs) = ground (arith, contains-add x b (to_set xs), contains-to_set b xs)

  pub contains-append :
      (b : A) (xs ys : List A) → contains (xs ++ ys) b ≡ (contains xs b || contains ys b)
  contains-append b [] ys = refl
  contains-append b (x ∷ xs) ys = ground (arith, contains-append b xs ys)

  pub length-to_set-le : (xs : List A) → length (to_set xs) ≤ length xs
  length-to_set-le [] = omega arith
  length-to_set-le (x ∷ xs) = ground (arith, length-to_set-le xs)

  -- One more element at the end counts as a set insertion.
  pub length-to_set_snoc :
      (a : A) (xs : List A) → length (to_set (xs ++ (a ∷ []))) ≡ length (add a (to_set xs))
  length-to_set_snoc a [] = refl
  length-to_set_snoc a (x ∷ xs) = ground (
    arith,
    length-to_set_snoc a xs,
    contains-to_set x (xs ++ (a ∷ [])),
    contains-append x xs (a ∷ []),
    contains-to_set x xs,
    contains-to_set a xs,
    contains-add x a (to_set xs),
    e.eq_iff a x,
    e.eq_iff x a,
  )

module _ {ℓ κ} {K : Type ℓ} {V : Type κ} ⦃e : PartialEq K⦄ where
  pub remove-insert_fresh :
      (k : K) (v : V) (m : List (K × V)) → lookup k m ≡ none → remove k (insert k v m) ≡ m
  remove-insert_fresh k v [] h = ground (arith, e.eq_iff k k)
  remove-insert_fresh k v ((j, w) ∷ m) h = ground (arith, remove-insert_fresh k v m)

  pub insert_fresh :
      (k : K) (v : V) (m : List (K × V)) → lookup k m ≡ none → insert k v m ≡ m ++ ((k, v) ∷ [])
  insert_fresh k v [] h = refl
  insert_fresh k v ((j, w) ∷ m) h = ground (arith, insert_fresh k v m)

  pub length-insert-le : (k : K) (v : V) (m : List (K × V)) → length (insert k v m) ≤ length m + 1
  length-insert-le k v [] = omega arith
  length-insert-le k v ((j, w) ∷ m) = ground (arith, length-insert-le k v m)

  pub length-remove-le : (k : K) (m : List (K × V)) → length (remove k m) ≤ length m
  length-remove-le k [] = omega arith
  length-remove-le k ((j, w) ∷ m) = ground (arith, length-remove-le k m)

  pub is_some-lookup : (k : K) (m : List (K × V)) → is_some (lookup k m) ≡ contains (keys m) k
  is_some-lookup k [] = refl
  is_some-lookup k ((j, w) ∷ m) = ground (arith, is_some-lookup k m)
