-- ===== src/Base/Reflect.antt =====
-- Boolean tests that decide statements.
use mathlib.Core.Path.{◌≡◌, refl}
use mathlib.Core.Logic.{◌⊎◌, inl, inr}
use mathlib.Core.Bool.{Bool, true, false, not, ◌&&◌, ◌||◌}
use mathlib.Core.List.{List, [], ◌∷◌}
use native.Mathlib.Omega.{arith}
use aerion.Base.Lists.{is_empty}
use aerion.Base.Search.{any, Any, any-Any, Any-any}

pub record Reflects (b : Bool) (P : Type 0) : Type 0 where
  pub sound : b ≡ true → P
  pub complete : P → b ≡ true

module _ {P Q : Type 0} where
  both_tests : (b c : Bool) → Reflects b P → Reflects c Q → Reflects (b && c) (P × Q)
  both_tests true c p q = record {
    sound = λ e. (p.sound refl, q.sound e);
    complete = λ (x, y). q.complete y;
  }
  both_tests false c p q = record { sound = λ e. cc; complete = λ (x, y). p.complete x }

  either : (b c : Bool) → Reflects b P → Reflects c Q → P ⊎ Q → (b || c) ≡ true
  either true c p q x = refl
  either false c p q (inl x) = (let wrong = p.complete x in cc)
  either false c p q (inr y) = q.complete y

  either_test : (b c : Bool) → Reflects b P → Reflects c Q → Reflects (b || c) (P ⊎ Q)
  either_test true c p q = record { sound = λ e. inl (p.sound refl); complete = λ x. refl }
  either_test false c p q = record { sound = λ e. inr (q.sound e); complete = either false c p q }

  guarded_test : (b c : Bool) → Reflects b P → Reflects c Q → Reflects (not b || c) (P → Q)
  guarded_test true c p q = record {
    sound = λ e _. q.sound e;
    complete = λ f. q.complete (f (p.sound refl));
  }
  guarded_test false c p q = record {
    sound = λ e x. (let wrong = p.complete x in absurd (ground (arith, wrong)));
    complete = λ f. refl;
  }

module _ {P Q : Type 0} {b c : Bool} (p : Reflects b P) (q : Reflects c Q) where
  pub reflect_and : Reflects (b && c) (P × Q)
  reflect_and = both_tests b c p q

  pub reflect_or : Reflects (b || c) (P ⊎ Q)
  reflect_or = either_test b c p q

  -- A condition that asks for something only if its guard holds.
  pub reflect_implies : Reflects (not b || c) (P → Q)
  reflect_implies = guarded_test b c p q

pub reflect_not : (b : Bool) → Reflects (not b) (b ≡ false)
reflect_not true = record {
  sound = λ e. (let wrong = e in ground (arith, wrong));
  complete = λ e. (let wrong = e in ground (arith, wrong));
}
reflect_not false = record { sound = λ e. refl; complete = λ e. refl }

pub reflect_bool : (b : Bool) → Reflects b (b ≡ true)
reflect_bool b = record { sound = λ e. e; complete = λ e. e }

pub reflect_empty : {A : Type 0} (xs : List A) → Reflects (is_empty xs) (xs ≡ [])
reflect_empty [] = record { sound = λ e. refl; complete = λ e. refl }
reflect_empty (x ∷ xs) = record { sound = λ e. cc; complete = λ e. cc }

pub reflect_any :
    {A : Type 0} (P : A → Type 0) (p : A → Bool)
    → ((x : A) → Reflects (p x) (P x))
    → (xs : List A) → Reflects (any p xs) (Any P xs)
reflect_any P p each xs = record {
  sound = any-Any P p (λ x. (each x).sound) xs;
  complete = Any-any P p (λ x. (each x).complete) xs;
}

-- A list condition that an empty list leaves out.
pub reflect_optional :
    {A : Type 0} {P : Type 0} {b : Bool} (xs : List A)
    → Reflects b P
    → Reflects (is_empty xs || b) ((xs ≡ []) ⊎ P)
reflect_optional xs p = reflect_or (reflect_empty xs) p
