-- ===== src/Base/Search.antt =====
-- Searches in lists and texts, with what they find: `any`, `ends_with`, `contains` of a `str`.
use mathlib.Core.Path.{◌≡◌, refl, ap}
use mathlib.Core.Logic.{◌⊎◌, inl, inr}
use mathlib.Core.Bool.{Bool, true, false, ◌||◌}
use mathlib.Core.List.{List, [], ◌∷◌, ◌++◌}
use native.Mathlib.Omega.{arith}
use aerion.Base.Tests.{Bool-cases}
use aerion.Base.Lists.{bytes_beq, bytes_beq-eq, bytes_beq_refl}
use aerion.Base.Text.{Text, is_prefix}

module _ {ℓ} {A : Type ℓ} where
  abbrev pub any : (A → Bool) → List A → Bool
  any p [] = false
  any p (x ∷ xs) = p x || any p xs

  -- Some element satisfies the predicate.
  abbrev pub Any : (A → Type 0) → List A → Type 0
  Any P [] = ⊥
  Any P (x ∷ xs) = P x ⊎ Any P xs

  -- A test that decides a predicate decides it on lists.
  pub any-Any :
      (P : A → Type 0) (p : A → Bool)
      → ((x : A) → p x ≡ true → P x)
      → (xs : List A) → any p xs ≡ true
      → Any P xs
  any-Any P p sound [] h = cc
  any-Any P p sound (x ∷ xs) h = elim (Bool-cases (p x)) [
    | inl e ↦ inl (sound x e)
    | inr e ↦ inr (any-Any P p sound xs (rw e at h))
  ]

  pub Any-any :
      (P : A → Type 0) (p : A → Bool)
      → ((x : A) → P x → p x ≡ true)
      → (xs : List A) → Any P xs
      → any p xs ≡ true
  Any-any P p complete [] h = absurd h
  Any-any P p complete (x ∷ xs) (inl h) = rw (complete x h) refl
  Any-any P p complete (x ∷ xs) (inr h) = ground (arith, Any-any P p complete xs h)

-- The text begins with the other.
pub is_prefix-append : (p s : Text) → is_prefix p (p ++ s) ≡ true
is_prefix-append [] s = refl
is_prefix-append (c ∷ p) s = ground (arith, is_prefix-append p s)

pub is_prefix-split : (p s : Text) → is_prefix p s ≡ true → (rest : Text) × (s ≡ p ++ rest)
is_prefix-split [] s h = (s, refl)
is_prefix-split (c ∷ p) [] h = cc
is_prefix-split (c ∷ p) (d ∷ s) h =
    let (rest, e) = is_prefix-split p s (ground (arith, h)) in (rest, ground (arith, e, h))

-- `ends_with`, the suffix first.
abbrev pub ends_with : Text → Text → Bool
ends_with suffix [] = bytes_beq [] suffix
ends_with suffix (c ∷ s) = bytes_beq (c ∷ s) suffix || ends_with suffix s

pub ends_with-split :
    (suffix s : Text) → ends_with suffix s ≡ true → (front : Text) × (s ≡ front ++ suffix)
ends_with-split suffix [] h = ([], bytes_beq-eq [] suffix h)
ends_with-split suffix (c ∷ s) h = elim (Bool-cases (bytes_beq (c ∷ s) suffix)) [
  | inl e ↦ ([], bytes_beq-eq (c ∷ s) suffix e)
  | inr e ↦ let (front, e') = ends_with-split suffix s (rw e at h) in (c ∷ front, ap (◌∷◌ c) e')
]

ends_with_self : (s : Text) → ends_with s s ≡ true
ends_with_self [] = refl
ends_with_self (c ∷ s) = rw (bytes_beq_refl (c ∷ s)) refl

pub ends_with-append : (front suffix : Text) → ends_with suffix (front ++ suffix) ≡ true
ends_with-append [] suffix = ends_with_self suffix
ends_with-append (c ∷ front) suffix = ground (arith, ends_with-append front suffix)

-- `str::contains`, the part first.
abbrev pub has_part : Text → Text → Bool
has_part part [] = is_prefix part []
has_part part (c ∷ s) = is_prefix part (c ∷ s) || has_part part s

pub has_part-split :
    (part s : Text) → has_part part s ≡ true → (front back : Text) × (s ≡ front ++ (part ++ back))
has_part-split part [] h = let (rest, e) = is_prefix-split part [] h in ([], rest, e)
has_part-split part (c ∷ s) h = elim (Bool-cases (is_prefix part (c ∷ s))) [
  | inl e ↦ let (rest, e') = is_prefix-split part (c ∷ s) e in ([], rest, e')
  | inr e ↦
      let (front, back, e') = has_part-split part s (rw e at h) in (c ∷ front, back, ap (◌∷◌ c) e')
]

has_part_start : (part back : Text) → has_part part (part ++ back) ≡ true
has_part_start [] [] = refl
has_part_start [] (c ∷ back) = refl
has_part_start (c ∷ part) back = ground (arith, is_prefix-append (c ∷ part) back)

pub has_part-append : (front part back : Text) → has_part part (front ++ (part ++ back)) ≡ true
has_part-append [] part back = has_part_start part back
has_part-append (c ∷ front) part back = ground (arith, has_part-append front part back)
