-- ===== src/Padding.antt =====
-- The padding scheme of padding.rs: its text form and the record sizes drawn from it.
pub mod Scheme
mod Runs
use aerion.Base.{
  ℕ, zero, suc, ◌+◌, ◌-◌, ◌*◌, ◌%◌, ◌^◌, ◌≡◌, refl, Bool, true, false, Option, none, some, ◌&&◌,
  not, List, [], ◌∷◌, ◌++◌, map, arith, leb, ltb, ◌==◌, if◌then◌else◌, Result, ok, err, ◌>>=◌,
  ensure, ◌>>◌, ok_or, bytes_beq, is_empty,
}
use aerion.Base.Parse.{split, parse_uint}
use aerion.Base.Text.{Text, ascii, trim, split_once}

pub data PaddingError : Type 0 where
  invalid_line invalid_number stop_not_positive invalid_range range_not_positive missing_stop :
      PaddingError
  preface_out_of_range : PaddingError

pub data PaddingRule : Type 0 where
  range : ℕ → ℕ → PaddingRule
  checkpoint : PaddingRule

pub record PaddingScheme : Type 0 where
  pub raw : List Text
  pub md5 : Text
  pub stop : ℕ
  pub rules : List (ℕ × List PaddingRule)

-- `str::lines` leaves out what follows the last line feed when it is empty. A carriage return at the
-- end of a line is white space, which `trim` removes anyway.
drop_last_empty : List Text → List Text
drop_last_empty [] = []
drop_last_empty ([] ∷ []) = []
drop_last_empty (l ∷ ls) = l ∷ drop_last_empty ls

unfoldable pub lines : Text → List Text
unfolding split drop_last_empty
lines s = drop_last_empty (split 10 s)

unfoldable pub join : List Text → Text
join [] = []
join (l ∷ []) = l
join (l ∷ m ∷ ls) = l ++ (10 ∷ join (m ∷ ls))

unfoldable pub trimmed_lines : List Text → List Text
unfolding trim
trimmed_lines [] = []
trimmed_lines (l ∷ ls) =
    let rest = trimmed_lines ls in if is_empty (trim l) then rest else trim l ∷ rest

-- The two ends of a range, the smaller one first.
unfoldable pub order_ends : ℕ → ℕ → Result PaddingError PaddingRule
order_ends min max =
    let low : ℕ = if ltb max min then max else min in
    let high : ℕ = if ltb max min then min else max in
    if ltb 0 low && ltb 0 high then ok (range low high) else err range_not_positive

unfoldable pub parse_range : Text → Result PaddingError PaddingRule
unfolding parse_uint order_ends
parse_range rule = do
  ends ← ok_or (split_once b'-' rule) invalid_range
  min ← ok_or (parse_uint 64 ends.0) invalid_number
  max ← ok_or (parse_uint 64 ends.1) invalid_number
  order_ends min max

-- One item between the commas of a rule.
unfoldable pub parse_rule : Text → Result PaddingError PaddingRule
unfolding parse_range
parse_rule rule = if bytes_beq rule (ascii "c") then ok checkpoint else parse_range rule

unfoldable pub parse_rules : List Text → Result PaddingError (List PaddingRule)
unfolding parse_rule
parse_rules [] = ok []
parse_rules (r ∷ rs) = do rule ← parse_rule r; rules ← parse_rules rs; ok (rule ∷ rules)

-- What the lines read so far say.
pub record Parsed : Type 0 where
  pub stop : Option ℕ
  pub rules : List (ℕ × List PaddingRule)

abbrev pub set_stop : Parsed → ℕ → Result PaddingError Parsed
set_stop acc parsed =
    if ltb 0 parsed
    then ok (record { stop = some parsed; rules = acc.rules })
    else err stop_not_positive

unfoldable pub parse_stop : Parsed → Text → Result PaddingError Parsed
unfolding parse_uint
parse_stop acc value = do parsed ← ok_or (parse_uint 32 value) invalid_number; set_stop acc parsed

abbrev pub add_rules : Parsed → ℕ → List PaddingRule → Result PaddingError Parsed
add_rules acc packet packet_rules =
    ok (record { stop = acc.stop; rules = acc.rules ++ ((packet, packet_rules) ∷ []) })

unfoldable pub parse_packet : Parsed → Text → Text → Result PaddingError Parsed
unfolding parse_uint parse_rules split
parse_packet acc key value = do
  packet ← ok_or (parse_uint 32 key) invalid_number
  packet_rules ← parse_rules (split b',' value)
  add_rules acc packet packet_rules

-- A line replaces `stop` or adds a rule.
unfoldable pub parse_line : Parsed → Text → Result PaddingError Parsed
unfolding parse_stop parse_packet
parse_line acc line = do
  entry ← ok_or (split_once b'=' line) invalid_line
  if bytes_beq entry.0 (ascii "stop")
      then parse_stop acc entry.1
      else parse_packet acc entry.0 entry.1

unfoldable pub parse_lines : Parsed → List Text → Result PaddingError Parsed
unfolding parse_line
parse_lines acc [] = ok acc
parse_lines acc (l ∷ ls) = do next ← parse_line acc l; parse_lines next ls

-- The hash of the joined lines, in hexadecimal, comes from a library.
module _ (md5_hex : Text → Text) where
  -- `PaddingScheme::from_text`
  unfoldable pub from_text : Text → Result PaddingError PaddingScheme
  unfolding lines trimmed_lines parse_lines join
  from_text text =
      let raw_lines = trimmed_lines (lines text) in
      do
        parsed ← parse_lines (record { stop = none; rules = [] }) raw_lines
        stop ← ok_or parsed.stop missing_stop
        ok (record {
          raw = raw_lines;
          md5 = md5_hex (join raw_lines);
          stop = stop;
          rules = parsed.rules;
        })

-- `PADDING_CHECKPOINT`, an isize of -1, as its 64 bits.
abbrev pub padding_checkpoint : ℕ
padding_checkpoint = 2 ^ 64 - 1

-- The sizes of a list of rules; `random i` is the i-th number that the random source gives.
unfoldable pub sizes_of : (ℕ → ℕ) → ℕ → List PaddingRule → List ℕ
sizes_of random i [] = []
sizes_of random i (checkpoint ∷ rs) = padding_checkpoint ∷ sizes_of random i rs
sizes_of random i (range min max ∷ rs) =
    let drawn = sizes_of random (suc i) rs in
    let fixed = sizes_of random i rs in
    if min == max then min ∷ fixed else (min + random i % (max - min)) ∷ drawn

unfoldable pub find_rules : ℕ → List (ℕ × List PaddingRule) → List PaddingRule
find_rules packet [] = []
find_rules packet ((index, rules) ∷ rest) =
    let later = find_rules packet rest in if index == packet then rules else later

-- `record_payload_sizes`, each isize as its 64 bits; the random source does not fail.
unfoldable pub record_payload_sizes : PaddingScheme → ℕ → (ℕ → ℕ) → List ℕ
unfolding sizes_of find_rules
record_payload_sizes s packet random = sizes_of random 0 (find_rules packet s.rules)

-- The first size that is not negative as an isize, 0 if there is none.
unfoldable pub first_size : List ℕ → ℕ
first_size [] = 0
first_size (x ∷ xs) = let later = first_size xs in if ltb x (2 ^ 63) then x else later

-- `preface_padding_len`
unfoldable pub preface_padding_len : PaddingScheme → (ℕ → ℕ) → Result PaddingError ℕ
unfolding first_size record_payload_sizes
preface_padding_len s random =
    let size = first_size (record_payload_sizes s 0 random) in
    if leb size 65535 then ok size else err preface_out_of_range

default_text : Text
default_text = ascii "stop=8\n0=30-30\n1=100-400\n2=400-500,c,500-1000,c\n3=9-9,1000-500\n"

default_parsed :
    (md5 : Text → Text)
    → from_text md5 default_text
      ≡ ok (record {
        raw = lines default_text;
        md5 = md5 (join (lines default_text));
        stop = 8;
        rules =
            (0, range 30 30 ∷ [])
            ∷ (1, range 100 400 ∷ [])
            ∷ (2, range 400 500 ∷ checkpoint ∷ range 500 1000 ∷ checkpoint ∷ [])
            ∷ (3, range 9 9 ∷ range 500 1000 ∷ [])
            ∷ [];
      })
unfolding from_text default_text
default_parsed md5 = refl
