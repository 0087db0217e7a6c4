-- ===== src/Vision/Headers.antt =====
-- The turns that read the header and the content of a block.
use aerion.Base.{
  min, ℕ, zero, suc, ◌^◌, ◌%◌, ◌≤◌, ◌<◌, ◌≡◌, refl, sym, ◌∙◌, ap, subst, inl, inr, Bool, true,
  false, [], ◌∷◌, ◌++◌, arith, append_assoc, ltb, ◌==◌, is_empty, is_some, length, take, drop,
  get_or, length-append, length-take, length-drop, take-append-drop, Bool-cases,
}
use aerion.Base.Text.{Text}
use aerion.Base.Bytes.{be_bytes, from_be, from_be-be_bytes}
use aerion.Vision.{VisionReader, header, content, turn_header, turn_content}
use aerion.Vision.Blocks.{
  After, block_header, after_bytes, after_content, after_command, IsAfter, Follows, IsGoodTurn,
  more, tail, in_content, in_padding,
}

pub split_take :
    (n : ℕ) (xs s ys t : Text)
    → xs ++ s ≡ ys ++ t
    → n ≤ length xs
    → n ≤ length ys
    → take n xs ≡ take n ys
split_take zero xs s ys t h lx ly = refl
split_take (suc n) [] s ys t h lx ly = absurd (omega arith)
split_take (suc n) (x ∷ xs) s [] t h lx ly = absurd (omega arith)
split_take (suc n) (x ∷ xs) s (y ∷ ys) t h lx ly =
    ground (arith, split_take n xs s ys t (ground (arith, h)) (omega arith) (omega arith), h)

pub split_drop :
    (n : ℕ) (xs s ys t : Text)
    → xs ++ s ≡ ys ++ t
    → n ≤ length xs
    → n ≤ length ys
    → drop n xs ++ s ≡ drop n ys ++ t
split_drop zero xs s ys t h lx ly = h
split_drop (suc n) [] s ys t h lx ly = absurd (omega arith)
split_drop (suc n) (x ∷ xs) s [] t h lx ly = absurd (omega arith)
split_drop (suc n) (x ∷ xs) s (y ∷ ys) t h lx ly =
    split_drop n xs s ys t (ground (arith, h)) (omega arith) (omega arith)

-- The fields of a block header that is there in full.
record ReadsHeader (command : ℕ) (xs ys encoded s rest : Text) : Type 0 where
  command_read : get_or encoded 0 0 ≡ command
  content_read : from_be (take 2 (drop 1 encoded)) ≡ length xs
  padding_read : from_be (take 2 (drop 3 encoded)) ≡ length ys
  left : drop 5 encoded ++ s ≡ rest

from_two : (xs : Text) → length xs ≤ 65535 → from_be (be_bytes 2 (length xs % 2 ^ 16)) ≡ length xs
from_two xs h = from_be-be_bytes 2 (length xs % 2 ^ 16) (omega arith) ∙ omega (arith, h)

header_read :
    (command : ℕ) (xs ys encoded s rest : Text)
    → length xs ≤ 65535
    → length ys ≤ 65535
    → encoded ++ s ≡ block_header command xs ys ++ rest
    → 5 ≤ length encoded
    → ReadsHeader command xs ys encoded s rest
unfolding be_bytes
header_read command xs ys encoded s rest hx hy h long =
    let head = block_header command xs ys in
    let same : encoded ≡ head ++ drop 5 encoded =
      sym (take-append-drop 5 encoded)
      ∙ ap (λ e. e ++ drop 5 encoded) (split_take 5 encoded s head rest h long (omega arith)) in
    record {
      command_read = subst (λ e. get_or e 0 0 ≡ command) (sym same) refl;
      content_read =
          subst (λ e. from_be (take 2 (drop 1 e)) ≡ length xs) (sym same) (from_two xs hx);
      padding_read =
          subst (λ e. from_be (take 2 (drop 3 e)) ≡ length ys) (sym same) (from_two ys hy);
      left = split_drop 5 encoded s head rest h long (omega arith);
    }

-- A whole block header and what follows are five bytes at least.
short_of_header :
    (command : ℕ) (xs ys encoded rest : Text)
    → encoded ++ [] ≡ block_header command xs ys ++ rest
    → length encoded < 5
    → ⊥
unfolding be_bytes
short_of_header command xs ys encoded rest h short =
    omega (arith, short, length-append encoded [], ap length h)

is_empty-filled : (xs : Text) → 0 < length xs → is_empty xs ≡ false
is_empty-filled [] h = absurd (omega arith)
is_empty-filled (x ∷ xs) h = refl

is_empty-length : (xs : Text) → is_empty xs ≡ false → 0 < length xs
is_empty-length [] h = cc
is_empty-length (x ∷ xs) h = omega arith

small_command : (a : After) → ltb 2 (after_command a) ≡ false
small_command (more rest) = refl
small_command (tail true rest) = refl
small_command (tail false rest) = refl

-- The header of a block that holds `xs`, `ys` and goes on with `a`.
pub block_turn :
    (eof : Bool) (r : VisionReader) (s total xs ys : Text) (a : After)
    → (eof ≡ true → s ≡ [])
    → length xs ≤ 65535
    → length ys ≤ 65535
    → IsAfter a
    → length r.user ≡ 16
    → is_some r.control ≡ true
    → r.state ≡ header
    → r.encoded ++ s ≡ block_header (after_command a) xs ys ++ (xs ++ (ys ++ after_bytes a))
    → r.decoded ++ (xs ++ after_content a) ≡ total
    → Follows r s total
    → IsGoodTurn eof r s total (turn_header eof r)
block_turn eof r s total xs ys a closed hx hy valid user_size controlled state bytes whole f =
    elim (Bool-cases (ltb (length r.encoded) 5)) [
      | inl short ↦ elim (Bool-cases eof) [
        | inl e ↦ absurd (
            short_of_header (after_command a) xs ys r.encoded (xs ++ (ys ++ after_bytes a))
              (subst
                (λ t.
                  r.encoded ++ t
                  ≡ block_header (after_command a) xs ys ++ (xs ++ (ys ++ after_bytes a)))
                (closed e) bytes)
              (ground (arith, short)))
        | inr e ↦ rw (short, e) (f, λ h. cc)
      ]
      | inr long ↦
          let q =
            header_read (after_command a) xs ys r.encoded s (xs ++ (ys ++ after_bytes a)) hx hy
              bytes (ground (arith, long)) in
          let known : ltb 2 (after_command a) ≡ false = small_command a in
          rw (long, q.command_read, known, q.content_read, q.padding_read)
            (
              record {
                position = in_content xs ys a;
                valid = valid;
                user_size = user_size;
                controlled = controlled;
                state = refl;
                bytes = q.left;
                whole = whole;
              },
              rw (state) (ground (arith, long, length-drop 5 r.encoded)),
            )
    ]

pub drop_whole : (xs : Text) → drop (length xs) xs ≡ []
drop_whole [] = refl
drop_whole (x ∷ xs) = drop_whole xs

regroup :
    (n : ℕ) (d taken xs t : Text)
    → taken ≡ take n xs
    → (d ++ taken) ++ (drop n xs ++ t) ≡ d ++ (xs ++ t)
regroup n d taken xs t e =
    append_assoc d taken (drop n xs ++ t)
    ∙ ap (λ s. d ++ s)
        (sym (append_assoc taken (drop n xs) t)
          ∙ ap (λ s. s ++ t) (ap (λ s. s ++ drop n xs) e ∙ take-append-drop n xs))

-- Input that ended cannot be shorter than what is to come.
pub short_input : (encoded ys t : Text) → encoded ++ [] ≡ ys ++ t → length encoded < length ys → ⊥
short_input encoded ys t h short =
    omega (arith, short, length-append encoded [], length-append ys t, ap length h)

pub content_turn :
    (eof : Bool) (r : VisionReader) (s total xs ys : Text) (a : After)
    → (eof ≡ true → s ≡ [])
    → IsAfter a
    → r.state ≡ content (after_command a) (length xs) (length ys)
    → r.encoded ++ s ≡ xs ++ (ys ++ after_bytes a)
    → r.decoded ++ (xs ++ after_content a) ≡ total
    → Follows r s total
    → IsGoodTurn eof r s total (turn_content eof r (after_command a) (length xs) (length ys))
content_turn eof r s total [] ys a closed valid state bytes whole f = (
  record {
    position = in_padding ys a;
    valid = valid;
    user_size = f.user_size;
    controlled = f.controlled;
    state = refl;
    bytes = bytes;
    whole = whole;
  },
  rw (state) (omega arith),
)
content_turn eof r s total (x ∷ xs) ys a closed valid state bytes whole f =
    let n = min (length (x ∷ xs)) (length r.encoded) in
    let some_content : (length (x ∷ xs) == 0) ≡ false = ground arith in
    elim (Bool-cases (n == 0)) [
      | inl none_left ↦ elim (Bool-cases eof) [
        | inl e ↦ absurd (
            short_input r.encoded (x ∷ xs) (ys ++ after_bytes a)
              (subst (λ t. r.encoded ++ t ≡ (x ∷ xs) ++ (ys ++ after_bytes a)) (closed e) bytes)
              (ground (arith, none_left)))
        | inr e ↦ rw (some_content, none_left, e) (f, λ h. cc)
      ]
      | inr some_left ↦
          let lx : n ≤ length r.encoded = ground arith in
          let ly : n ≤ length (x ∷ xs) = ground arith in
          let taken = split_take n r.encoded s (x ∷ xs) (ys ++ after_bytes a) bytes lx ly in
          let size = length-take n r.encoded lx in
          let grown : 0 < length (r.decoded ++ take n r.encoded) =
            ground (arith, some_left, length-append r.decoded (take n r.encoded), size) in
          let filled : is_empty (r.decoded ++ take n r.encoded) ≡ false =
            is_empty-filled (r.decoded ++ take n r.encoded) grown in
          rw (some_content, some_left, filled)
            (
              record {
                position = in_content (drop n (x ∷ xs)) ys a;
                valid = valid;
                user_size = f.user_size;
                controlled = f.controlled;
                state =
                    ap (λ m. content (after_command a) m (length ys))
                      (sym (length-drop n (x ∷ xs)));
                bytes = split_drop n r.encoded s (x ∷ xs) (ys ++ after_bytes a) bytes lx ly;
                whole =
                    regroup n r.decoded (take n r.encoded) (x ∷ xs) (after_content a) taken ∙ whole;
              },
              λ e empty. absurd (omega (arith, grown, ap length empty)),
            )
    ]
