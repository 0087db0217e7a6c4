-- ===== src/Base/Parse.antt =====
-- `str::split` and the parsers of unsigned integers.
use Prim.Native.Nat.{ℕ, ◌+◌, ◌-◌, ◌*◌, ◌^◌, ◌<◌}
use mathlib.Core.Path.{◌≡◌}
use mathlib.Core.Logic.{inl, inr}
use mathlib.Core.Bool.{◌&&◌}
use mathlib.Core.List.{List, [], ◌∷◌}
use mathlib.Core.Option.{Option, none, some}
use native.Mathlib.Omega.{arith}
use aerion.Base.Tests.{ltb, leb, ◌==◌, if◌then◌else◌, Bool-cases}
use aerion.Base.Text.{Text}

-- `str::split` at an ASCII character.
unfoldable pub split : ℕ → Text → List Text
split sep [] = [] ∷ []
split sep (c ∷ s) =
    let rest = split sep s in
    if c == sep then [] ∷ rest else elim rest [ [] ↦ (c ∷ []) ∷ [] | l ∷ ls ↦ (c ∷ l) ∷ ls ]

-- The digits of a number of `w` bits, after the digits read so far.
unfoldable pub parse_digits : ℕ → ℕ → Text → Option ℕ
parse_digits w acc [] = some acc
parse_digits w acc (c ∷ s) =
    let rest = parse_digits w (acc * 10 + (c - b'0')) s in
    if (leb b'0' c && leb c b'9') && ltb (acc * 10 + (c - b'0')) (2 ^ w) then rest else none

-- `str::parse` of an unsigned integer of `w` bits.
unfoldable pub parse_uint : ℕ → Text → Option ℕ
unfolding parse_digits
parse_uint w [] = none
parse_uint w (c ∷ []) = parse_digits w 0 (c ∷ [])
parse_uint w (c ∷ d ∷ s) =
    if c == b'+' then parse_digits w 0 (d ∷ s) else parse_digits w 0 (c ∷ d ∷ s)

parse_digits-lt :
    (w acc : ℕ) (s : Text) (n : ℕ) → acc < 2 ^ w → parse_digits w acc s ≡ some n → n < 2 ^ w
unfolding parse_digits
parse_digits-lt w acc [] n h e = ground arith
parse_digits-lt w acc (c ∷ s) n h e = grind (arith, parse_digits-lt w (acc * 10 + (c - b'0')) s n)

pub parse_uint-lt : (w : ℕ) (s : Text) (n : ℕ) → 0 < 2 ^ w → parse_uint w s ≡ some n → n < 2 ^ w
unfolding parse_uint
parse_uint-lt w [] n h e = cc
parse_uint-lt w (c ∷ []) n h e = parse_digits-lt w 0 (c ∷ []) n h e
parse_uint-lt w (c ∷ d ∷ s) n h e = elim (Bool-cases (c == b'+')) [
  | inl p ↦ parse_digits-lt w 0 (d ∷ s) n h (rw p at e)
  | inr p ↦ parse_digits-lt w 0 (c ∷ d ∷ s) n h (rw p at e)
]
