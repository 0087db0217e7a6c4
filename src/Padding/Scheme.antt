-- ===== src/Padding/Scheme.antt =====
-- What a parsed scheme satisfies, and the bounds of the sizes that are drawn from it.
use aerion.Base.{
  ℕ, suc, ◌^◌, ◌≤◌, ◌<◌, ◌≡◌, refl, inl, inr, Option, none, some, List, [], ◌∷◌, ◌++◌, All,
  Bool-cases, ltb→lt, bytes_beq, ok_or, arith, ltb, ◌==◌, if◌then◌else◌, Result, ok, ◌>>=◌,
  ok-parts, ok_injective, ok_or-parts, subst,
}
use aerion.Base.Text.{Text, ascii, split_once}
use aerion.Base.Parse.{split, parse_uint, parse_uint-lt}
use aerion.Padding.{
  PaddingError, PaddingRule, range, checkpoint, PaddingScheme, parse_rule, parse_rules, order_ends,
  parse_range, Parsed, parse_stop, parse_packet, invalid_range, invalid_number, invalid_line,
  missing_stop, set_stop, add_rules, join, parse_line, parse_lines, from_text, sizes_of, find_rules,
  record_payload_sizes, padding_checkpoint, trimmed_lines, lines,
}

-- A range that the parser accepts.
abbrev pub IsRule : PaddingRule → Type 0
IsRule (range min max) = (0 < min) × (min ≤ max) × (max < 2 ^ 64)
IsRule checkpoint = Unit

abbrev pub IsScheme : PaddingScheme → Type 0
IsScheme s = (0 < s.stop) × (s.stop < 2 ^ 32) × All (λ entry. All IsRule entry.1) s.rules

abbrev IsStop : Option ℕ → Type 0
IsStop none = Unit
IsStop (some n) = (0 < n) × (n < 2 ^ 32)

order_ends-IsRule :
    (min max : ℕ) (r : PaddingRule)
    → min < 2 ^ 64
    → max < 2 ^ 64
    → order_ends min max ≡ ok r
    → IsRule r
unfolding order_ends
order_ends-IsRule min max checkpoint hmin hmax e = ground arith
order_ends-IsRule min max (range lo hi) hmin hmax e = ground arith

abbrev second_end : Text → ℕ → Result PaddingError PaddingRule
second_end s min = ok_or (parse_uint 64 s) invalid_number >>= order_ends min

abbrev both_ends : Text × Text → Result PaddingError PaddingRule
both_ends ends = ok_or (parse_uint 64 ends.0) invalid_number >>= second_end ends.1

parse_range-IsRule : (t : Text) (r : PaddingRule) → parse_range t ≡ ok r → IsRule r
unfolding parse_range
parse_range-IsRule t r e =
    let (ends, e₁, _) = ok-parts both_ends (ok_or (split_once b'-' t) invalid_range) e in
    let (min, e₂, got) =
      ok-parts (second_end ends.1) (ok_or (parse_uint 64 ends.0) invalid_number) e₁ in
    let (max, e₃, got') =
      ok-parts (order_ends min) (ok_or (parse_uint 64 ends.1) invalid_number) e₂ in
    order_ends-IsRule min max r
      (parse_uint-lt 64 ends.0 min (omega arith)
        (ok_or-parts (parse_uint 64 ends.0) invalid_number got))
      (parse_uint-lt 64 ends.1 max (omega arith)
        (ok_or-parts (parse_uint 64 ends.1) invalid_number got'))
      e₃

parse_rule-IsRule : (t : Text) (r : PaddingRule) → parse_rule t ≡ ok r → IsRule r
unfolding parse_rule
parse_rule-IsRule t r e = elim (Bool-cases (bytes_beq t (ascii "c"))) [
  | inl c ↦ subst IsRule (ok_injective {E = PaddingError} (rw c at e)) tt
  | inr n ↦ parse_range-IsRule t r (rw n at e)
]

parse_rules-IsRule :
    (ts : List Text) (rs : List PaddingRule) → parse_rules ts ≡ ok rs → All IsRule rs
unfolding parse_rules
parse_rules-IsRule [] rs e = subst (All IsRule) (ok_injective e) tt
parse_rules-IsRule (t ∷ ts) rs e =
    let (rule, e₁, first) =
      ok-parts (λ rule. parse_rules ts >>= λ rules. ok (rule ∷ rules)) (parse_rule t) e in
    let (rules, e₂, later) = ok-parts (λ rules. ok (rule ∷ rules)) (parse_rules ts) e₁ in
    subst (All IsRule) (ok_injective e₂)
      (parse_rule-IsRule t rule first, parse_rules-IsRule ts rules later)

-- What the lines that were read so far leave.
abbrev IsParsed : Parsed → Type 0
IsParsed acc = IsStop acc.stop × All (λ entry. All IsRule entry.1) acc.rules

All-snoc {ℓ κ} :
    {A : Type ℓ} (P : A → Type κ) (xs : List A) (x : A) → All P xs → P x → All P (xs ++ (x ∷ []))
All-snoc P [] x h p = (p, tt)
All-snoc P (y ∷ xs) x h p = (h.0, All-snoc P xs x h.1 p)

parse_stop-IsParsed :
    (acc next : Parsed) (value : Text)
    → IsParsed acc
    → parse_stop acc value ≡ ok next
    → IsParsed next
unfolding parse_stop
parse_stop-IsParsed acc next value h e =
    let (n, e₁, got) = ok-parts (set_stop acc) (ok_or (parse_uint 32 value) invalid_number) e in
    let fits =
      parse_uint-lt 32 value n (omega arith)
        (ok_or-parts (parse_uint 32 value) invalid_number got) in
    elim (Bool-cases (ltb 0 n)) [
      | inl p ↦ subst IsParsed (ok_injective (rw p at e₁)) ((ltb→lt 0 n p, fits), h.1)
      | inr p ↦ (let wrong = rw p at e₁ in cc)
    ]

abbrev rules_for : Parsed → Text → ℕ → Result PaddingError Parsed
rules_for acc value packet = parse_rules (split b',' value) >>= add_rules acc packet

parse_packet-IsParsed :
    (acc next : Parsed) (key value : Text)
    → IsParsed acc
    → parse_packet acc key value ≡ ok next
    → IsParsed next
unfolding parse_packet
parse_packet-IsParsed acc next key value h e =
    let (packet, e₁, _) =
      ok-parts (rules_for acc value) (ok_or (parse_uint 32 key) invalid_number) e in
    let (rules, e₂, got) = ok-parts (add_rules acc packet) (parse_rules (split b',' value)) e₁ in
    subst IsParsed (ok_injective e₂) (
      h.0,
      All-snoc (λ entry. All IsRule entry.1) acc.rules (packet, rules) h.1
          (parse_rules-IsRule (split b',' value) rules got),
    )

abbrev line_entry : Parsed → Text × Text → Result PaddingError Parsed
line_entry acc entry =
    if bytes_beq entry.0 (ascii "stop")
    then parse_stop acc entry.1
    else parse_packet acc entry.0 entry.1

parse_line-IsParsed :
    (acc next : Parsed) (line : Text) → IsParsed acc → parse_line acc line ≡ ok next → IsParsed next
unfolding parse_line
parse_line-IsParsed acc next line h e =
    let (entry, e₁, _) = ok-parts (line_entry acc) (ok_or (split_once b'=' line) invalid_line) e in
    elim (Bool-cases (bytes_beq entry.0 (ascii "stop"))) [
      | inl p ↦ parse_stop-IsParsed acc next entry.1 h (rw p at e₁)
      | inr p ↦ parse_packet-IsParsed acc next entry.0 entry.1 h (rw p at e₁)
    ]

parse_lines-IsParsed :
    (acc result : Parsed) (ls : List Text)
    → IsParsed acc
    → parse_lines acc ls ≡ ok result
    → IsParsed result
unfolding parse_lines
parse_lines-IsParsed acc result [] h e = subst IsParsed (ok_injective e) h
parse_lines-IsParsed acc result (l ∷ ls) h e =
    let (next, e₁, got) = ok-parts (λ next. parse_lines next ls) (parse_line acc l) e in
    parse_lines-IsParsed next result ls (parse_line-IsParsed acc next l h got) e₁

abbrev no_lines : Parsed
no_lines = record { stop = none; rules = [] }

abbrev finish : (Text → Text) → List Text → Parsed → ℕ → Result PaddingError PaddingScheme
finish md5_hex raw parsed stop =
    ok (record { raw = raw; md5 = md5_hex (join raw); stop = stop; rules = parsed.rules })

abbrev close : (Text → Text) → List Text → Parsed → Result PaddingError PaddingScheme
close md5_hex raw parsed = ok_or parsed.stop missing_stop >>= finish md5_hex raw parsed

-- Whatever text `from_text` accepts: `stop` is positive and a u32, and each range of each rule has
-- positive ends in order that fit 64 bits.
pub from_text-IsScheme :
    (md5_hex : Text → Text) (text : Text) (s : PaddingScheme)
    → from_text md5_hex text ≡ ok s
    → IsScheme s
unfolding from_text
from_text-IsScheme md5_hex text s e =
    let raw = trimmed_lines (lines text) in
    let (parsed, e₁, got) = ok-parts (close md5_hex raw) (parse_lines no_lines raw) e in
    let (stop, e₂, found) =
      ok-parts (finish md5_hex raw parsed) (ok_or parsed.stop missing_stop) e₁ in
    let h = parse_lines-IsParsed no_lines parsed raw (tt, tt) got in
    let same = ok_or-parts parsed.stop missing_stop found in
    let bounds : IsStop (some stop) = subst IsStop same h.0 in
    subst IsScheme (ok_injective e₂) (bounds.0, bounds.1, h.1)

-- One size for each rule: the checkpoint mark, the number of a range of one number, or a number from
-- the first end on and below the second.
abbrev pub IsDrawn : List PaddingRule → List ℕ → Type 0
IsDrawn [] [] = Unit
IsDrawn [] (x ∷ xs) = ⊥
IsDrawn (r ∷ rs) [] = ⊥
IsDrawn (checkpoint ∷ rs) (x ∷ xs) = (x ≡ padding_checkpoint) × IsDrawn rs xs
IsDrawn (range min max ∷ rs) (x ∷ xs) =
    ((min ≤ x) × (x ≤ max) × (x ≡ max → min ≡ max)) × IsDrawn rs xs

pub sizes_of-IsDrawn :
    (random : ℕ → ℕ) (i : ℕ) (rules : List PaddingRule)
    → All IsRule rules
    → IsDrawn rules (sizes_of random i rules)
unfolding sizes_of
sizes_of-IsDrawn random i [] h = tt
sizes_of-IsDrawn random i (checkpoint ∷ rs) h = (refl, sizes_of-IsDrawn random i rs h.1)
sizes_of-IsDrawn random i (range min max ∷ rs) h = elim (Bool-cases (min == max)) [
  | inl e ↦
      rw e ((omega (arith, h.0), omega (arith, h.0), λ x. x), sizes_of-IsDrawn random i rs h.1)
  | inr n ↦ rw n (ground arith, sizes_of-IsDrawn random (suc i) rs h.1)
]

pub find_rules-All :
    (P : PaddingRule → Type 0) (packet : ℕ) (rules : List (ℕ × List PaddingRule))
    → All (λ entry. All P entry.1) rules
    → All P (find_rules packet rules)
unfolding find_rules
find_rules-All P packet [] h = tt
find_rules-All P packet ((index, rules) ∷ rest) h = elim (Bool-cases (index == packet)) [
  | inl e ↦ rw e h.0
  | inr n ↦ rw n (find_rules-All P packet rest h.1)
]

-- For a scheme that `from_text` accepts, and whatever the random source gives: a packet gets one size
-- for each rule that the scheme has for it, in their order. A checkpoint stays a checkpoint; a range
-- gives a number that is at least its first end and below its second, or the one number it has.
pub record_payload_sizes-IsDrawn :
    (s : PaddingScheme) (packet : ℕ) (random : ℕ → ℕ)
    → IsScheme s
    → IsDrawn (find_rules packet s.rules) (record_payload_sizes s packet random)
unfolding record_payload_sizes
record_payload_sizes-IsDrawn s packet random h =
    sizes_of-IsDrawn random 0 (find_rules packet s.rules) (find_rules-All IsRule packet s.rules h.2)
