-- ===== src/Base/Text.antt =====
-- `str` and `String` as their UTF-8 bytes: trimming, ASCII case, prefixes, UTF-8 validity.
use Prim.Native.Nat.{ℕ, zero, suc, ◌+◌}
use Prim.Native.Char.{code}
use Prim.Native.String.{String}
use mathlib.Core.Path.{◌≡◌, refl}
use mathlib.Core.Bool.{Bool, true, false, ◌&&◌, ◌||◌}
use mathlib.Core.List.{List, [], ◌∷◌, map, reverse}
use mathlib.Core.Option.{Option, none, some}
use aerion.Base.Tests.{ltb, leb, ◌==◌, if◌then◌else◌}
use aerion.Base.Lists.{bytes_beq}

abbrev pub Text : Type 0
Text = List ℕ

-- The bytes of an ASCII literal.
abbrev pub ascii : String → Text
ascii String.[] = []
ascii (String.◌∷◌ ch rest) = code ch ∷ ascii rest

-- `char::is_whitespace` (Unicode White_Space) on one byte, and on two and three bytes of UTF-8.
space_one : ℕ → Bool
space_one b = (leb 9 b && leb b 13) || b == 32

space_two : ℕ → ℕ → Bool
space_two a b = a == 0xc2 && (b == 0x85 || b == 0xa0)

space_three : ℕ → ℕ → ℕ → Bool
space_three a b c =
    (a == 0xe1 && (b == 0x9a && c == 0x80))
    || ((a == 0xe2
          && ((b == 0x80 && ((leb 0x80 c && leb c 0x8a) || c == 0xa8 || c == 0xa9 || c == 0xaf))
              || (b == 0x81 && c == 0x9f)))
        || (a == 0xe3 && (b == 0x80 && c == 0x80)))

-- The bytes of the white space character that the text begins with, 0 if it begins with another.
unfoldable pub space_len : Text → ℕ
unfolding space_one space_two space_three
space_len [] = 0
space_len (a ∷ []) = if space_one a then 1 else 0
space_len (a ∷ b ∷ []) = if space_one a then 1 else if space_two a b then 2 else 0
space_len (a ∷ b ∷ c ∷ r) =
    if space_one a then 1 else if space_two a b then 2 else if space_three a b c then 3 else 0

-- The same at the end of a text that is given from its last byte backwards.
unfoldable pub space_len_back : Text → ℕ
unfolding space_one space_two space_three
space_len_back [] = 0
space_len_back (a ∷ []) = if space_one a then 1 else 0
space_len_back (a ∷ b ∷ []) = if space_one a then 1 else if space_two b a then 2 else 0
space_len_back (a ∷ b ∷ c ∷ r) =
    if space_one a then 1 else if space_two b a then 2 else if space_three c b a then 3 else 0

-- Drop leading characters while `measure` finds one; `skip` bytes of the last one are left.
unfoldable pub strip : (Text → ℕ) → ℕ → Text → Text
strip measure skip [] = []
strip measure (suc skip) (x ∷ xs) = strip measure skip xs
strip measure zero (x ∷ xs) = elim (measure (x ∷ xs)) [
  | zero ↦ x ∷ xs
  | suc more ↦ strip measure more xs
]

unfoldable pub trim_start : Text → Text
unfolding strip space_len
trim_start s = strip space_len 0 s

unfoldable pub trim_end : Text → Text
unfolding strip space_len_back
trim_end s = reverse (strip space_len_back 0 (reverse s))

unfoldable pub trim : Text → Text
unfolding trim_start trim_end
trim s = trim_end (trim_start s)

abbrev pub to_ascii_lower : ℕ → ℕ
to_ascii_lower c = if leb b'A' c && leb c b'Z' then c + 32 else c

-- `to_ascii_lowercase`
abbrev pub to_ascii_lowercase : Text → Text
to_ascii_lowercase = map to_ascii_lower

-- `eq_ignore_ascii_case`
abbrev pub eq_ignore_ascii_case : Text → Text → Bool
eq_ignore_ascii_case a b = bytes_beq (to_ascii_lowercase a) (to_ascii_lowercase b)

-- `starts_with`, the prefix first.
abbrev pub is_prefix : Text → Text → Bool
is_prefix [] s = true
is_prefix (p ∷ ps) [] = false
is_prefix (p ∷ ps) (c ∷ s) = p == c && is_prefix ps s

-- `strip_prefix`
abbrev pub strip_prefix : Text → Text → Option Text
strip_prefix [] s = some s
strip_prefix (p ∷ ps) [] = none
strip_prefix (p ∷ ps) (c ∷ s) = if p == c then strip_prefix ps s else none

-- `split_once` at an ASCII character
abbrev pub split_once : ℕ → Text → Option (Text × Text)
split_once sep [] = none
split_once sep (c ∷ s) =
    let rest = split_once sep s in
    if c == sep then some ([], s) else elim rest [ none ↦ none | some (l, r) ↦ some (c ∷ l, r) ]

-- Well-formed UTF-8, what `String::from_utf8` accepts: the state is how many continuation bytes are
-- due and the range of the next one.
is_utf8_from : ℕ → ℕ → ℕ → Text → Bool
is_utf8_from due lo hi [] = due == 0
is_utf8_from (suc due) lo hi (b ∷ s) = (leb lo b && leb b hi) && is_utf8_from due 0x80 0xbf s
is_utf8_from zero lo hi (b ∷ s) = elim (ltb b 0x80) [
  | true ↦ is_utf8_from 0 0x80 0xbf s
  | false ↦ elim (leb 0xc2 b && leb b 0xdf) [
    | true ↦ is_utf8_from 1 0x80 0xbf s
    | false ↦ elim (b == 0xe0) [
      | true ↦ is_utf8_from 2 0xa0 0xbf s
      | false ↦ elim (b == 0xed) [
        | true ↦ is_utf8_from 2 0x80 0x9f s
        | false ↦ elim (leb 0xe1 b && leb b 0xef) [
          | true ↦ is_utf8_from 2 0x80 0xbf s
          | false ↦ elim (b == 0xf0) [
            | true ↦ is_utf8_from 3 0x90 0xbf s
            | false ↦ elim (b == 0xf4) [
              | true ↦ is_utf8_from 3 0x80 0x8f s
              | false ↦ elim (leb 0xf1 b && leb b 0xf3) [
                | true ↦ is_utf8_from 3 0x80 0xbf s
                | false ↦ false
              ]
            ]
          ]
        ]
      ]
    ]
  ]
]

unfoldable pub is_utf8 : Text → Bool
unfolding is_utf8_from
is_utf8 s = is_utf8_from 0 0x80 0xbf s

trims : trim (32 ∷ 0xc2 ∷ 0xa0 ∷ 65 ∷ 32 ∷ 66 ∷ 0xe3 ∷ 0x80 ∷ 0x80 ∷ 9 ∷ []) ≡ 65 ∷ 32 ∷ 66 ∷ []
unfolding trim
trims = refl

utf8_examples :
    (is_utf8 (0xe4 ∷ 0xb8 ∷ 0xad ∷ 65 ∷ []) ≡ true)
    × (is_utf8 (0xed ∷ 0xa0 ∷ 0x80 ∷ []) ≡ false)
    × (is_utf8 (0xc0 ∷ 0x80 ∷ []) ≡ false)
unfolding is_utf8
utf8_examples = (refl, refl, refl)
