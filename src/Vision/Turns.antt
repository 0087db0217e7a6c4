-- ===== src/Vision/Turns.antt =====
-- The turns on padding, at the start and at the end, and every turn together.
use aerion.Base.{
  min, ℕ, ◌+◌, ◌-◌, ◌≤◌, ◌<◌, ◌≡◌, refl, sym, ◌∙◌, ap, subst, inl, inr, Bool, true, false, not,
  ◌&&◌, some, [], ◌∷◌, ◌++◌, arith, append_assoc, append-nil, ltb, ◌==◌, if◌then◌else◌, is_empty,
  is_some, length, take, drop, length-append, length-drop, bytes_beq, bytes_beq_refl, Bool-cases,
  Option-cases,
}
use aerion.Base.Text.{Text}
use aerion.Base.Bytes.{be_bytes}
use aerion.Vision.{
  VisionReader, initial, header, raw, padding, Turn, again, done, decode_turn, turn_in,
  turn_initial, turn_header, turn_padding, padding_taken, turn_end, turn_direct, to_raw,
}
use aerion.Vision.Blocks.{
  Stream, After, end_command, stream_bytes, stream_content, IsStream, after_bytes, after_content,
  after_command, IsAfter, IsStarted, Position, state_of, bytes_of, content_of, IsPosition, Follows,
  weight, IsGoodTurn, stop, block, last, more, tail, at_start, at_header, in_content, in_padding,
  in_raw,
}
use aerion.Vision.Headers.{
  split_take, split_drop, block_turn, drop_whole, short_input, content_turn,
}

-- The rest of the input is handed on as it is.
raw_position :
    (eof : Bool) (before r next : VisionReader) (s total t : Text)
    → (eof ≡ true → s ≡ [])
    → length next.user ≡ 16
    → is_some next.control ≡ true
    → next.state ≡ raw
    → next.encoded ≡ []
    → r.encoded ++ s ≡ t
    → next.decoded ≡ r.decoded ++ r.encoded
    → r.decoded ++ t ≡ total
    → IsGoodTurn eof before s total (done next)
raw_position eof before r next s total t closed user_size controlled state empty bytes decoded
      whole =
    let same : next.decoded ++ s ≡ total =
      ap (λ d. d ++ s) decoded
      ∙ append_assoc r.decoded r.encoded s
      ∙ ap (λ u. r.decoded ++ u) bytes
      ∙ whole in
    (
      record {
        position = in_raw s;
        valid = tt;
        user_size = user_size;
        controlled = controlled;
        state = state;
        bytes = ap (λ e. e ++ s) empty;
        whole = same;
      },
      λ e none_left. sym same ∙ ap (λ d. d ++ s) none_left ∙ closed e,
    )

end_turn :
    (eof : Bool) (before r : VisionReader) (s total t : Text) (direct : Bool)
    → (eof ≡ true → s ≡ [])
    → length r.user ≡ 16
    → is_some r.control ≡ true
    → r.encoded ++ s ≡ t
    → r.decoded ++ t ≡ total
    → IsGoodTurn eof before s total (turn_end r (end_command direct))
end_turn eof before r s total t false closed user_size controlled bytes whole =
    raw_position eof before r (to_raw r) s total t closed user_size controlled refl refl bytes refl
      whole
end_turn eof before r s total t true closed user_size controlled bytes whole =
    elim (Option-cases r.control) [
      | inl e ↦ (let wrong = rw e at controlled in cc)
      | inr (c, e) ↦
          subst (λ o. IsGoodTurn eof before s total (turn_direct r o)) (sym e)
            (raw_position eof before r
              (to_raw (record r { control = some (record c { read_direct = true }) })) s total t
              closed user_size refl refl refl bytes refl whole)
    ]

-- What is behind the padding of a block.
abbrev turn_after : VisionReader → ℕ → Turn
turn_after next command =
    if command == 0 then again (record next { state = header }) else turn_end next command

after_turn :
    (eof : Bool) (before r : VisionReader) (s total : Text) (a : After)
    → (eof ≡ true → s ≡ [])
    → IsAfter a
    → length r.user ≡ 16
    → is_some r.control ≡ true
    → r.encoded ++ s ≡ after_bytes a
    → r.decoded ++ after_content a ≡ total
    → length r.encoded < weight before
    → IsGoodTurn eof before s total (turn_after r (after_command a))
after_turn eof before r s total (more rest) closed valid user_size controlled bytes whole less = (
  record {
    position = at_header rest;
    valid = valid;
    user_size = user_size;
    controlled = controlled;
    state = refl;
    bytes = bytes;
    whole = whole;
  },
  omega (arith, less),
)
after_turn eof before r s total (tail true rest) closed valid user_size controlled bytes whole
      less =
    end_turn eof before r s total rest true closed user_size controlled bytes whole
after_turn eof before r s total (tail false rest) closed valid user_size controlled bytes whole
      less =
    end_turn eof before r s total rest false closed user_size controlled bytes whole

padding_turn :
    (eof : Bool) (r : VisionReader) (s total ys : Text) (a : After)
    → (eof ≡ true → s ≡ [])
    → IsAfter a
    → r.state ≡ padding (after_command a) (length ys)
    → r.encoded ++ s ≡ ys ++ after_bytes a
    → r.decoded ++ after_content a ≡ total
    → Follows r s total
    → IsGoodTurn eof r s total (turn_padding eof r (after_command a) (length ys))
padding_turn eof r s total ys a closed valid state bytes whole f =
    let n = min (length ys) (length r.encoded) in
    let lx : n ≤ length r.encoded = ground arith in
    let ly : n ≤ length ys = ground arith in
    let left = split_drop n r.encoded s ys (after_bytes a) bytes lx ly in
    elim (Bool-cases (ltb (length r.encoded) (length ys))) [
      | inl short ↦ elim (Bool-cases eof) [
        | inl e ↦ absurd (
            short_input r.encoded ys (after_bytes a)
              (subst (λ t. r.encoded ++ t ≡ ys ++ after_bytes a) (closed e) bytes)
              (ground (arith, short)))
        | inr e ↦ elim (Bool-cases (n == 0)) [
          | inl none_left ↦
              let waits : ltb 0 (length ys) ≡ true = ground (arith, short) in
              rw (none_left, waits, e) (f, λ h. cc)
          | inr some_left ↦
              let part : ltb 0 (length ys - n) ≡ true = ground (arith, short) in
              rw (some_left, part)
                (
                  record {
                    position = in_padding (drop n ys) a;
                    valid = valid;
                    user_size = f.user_size;
                    controlled = f.controlled;
                    state = ap (padding (after_command a)) (sym (length-drop n ys));
                    bytes = left;
                    whole = whole;
                  },
                  λ h. cc,
                )
        ]
      ]
      | inr long ↦
          let whole_padding : length ys ≡ n = ground (arith, long) in
          let waits : ((length ys == 0) && ltb 0 (length ys)) ≡ false = ground arith in
          let none_left : ltb 0 (length ys - length ys) ≡ false = ground arith in
          let behind =
            split_drop (length ys) r.encoded s ys (after_bytes a) bytes (ground (arith, long))
              (omega arith) in
          subst
            (λ m. IsGoodTurn eof r s total (padding_taken eof r (after_command a) (length ys) m))
            whole_padding
            (rw (waits, none_left)
              (after_turn eof r (record r { encoded = drop (length ys) r.encoded }) s total a closed
                valid f.user_size f.controlled
                (behind ∙ ap (λ t. t ++ after_bytes a) (drop_whole ys)) whole
                (rw (state) omega (arith, length-drop (length ys) r.encoded))))
    ]

start_turn :
    (eof : Bool) (r : VisionReader) (s total : Text) (st : Stream)
    → (eof ≡ true → s ≡ [])
    → IsStream st
    → IsStarted st
    → 5 ≤ length (stream_bytes st)
    → r.state ≡ initial
    → r.encoded ++ s ≡ r.user ++ stream_bytes st
    → r.decoded ++ stream_content st ≡ total
    → Follows r s total
    → IsGoodTurn eof r s total (turn_initial eof r)
start_turn eof r s total st closed valid started long state bytes whole f =
    let n = min (length r.encoded) (length r.user) in
    let same =
      split_take n r.encoded s r.user (stream_bytes st) bytes (ground arith) (ground arith) in
    let matches : bytes_beq (take n r.encoded) (take n r.user) ≡ true =
      subst (λ t. bytes_beq (take n r.encoded) t ≡ true) same (bytes_beq_refl (take n r.encoded)) in
    elim (Bool-cases (ltb (length r.encoded) (length r.user + 5))) [
      | inl short ↦ elim (Bool-cases eof) [
        | inl e ↦ absurd (
            short_input r.encoded (r.user ++ stream_bytes st) []
              (subst (λ t. r.encoded ++ t ≡ (r.user ++ stream_bytes st) ++ []) (closed e)
                (bytes ∙ sym (append-nil (r.user ++ stream_bytes st))))
              (ground (arith, short, long, length-append r.user (stream_bytes st))))
        | inr e ↦ rw (matches, short, e) (f, λ h. cc)
      ]
      | inr enough ↦
          rw (matches, enough)
            (
              record {
                position = at_header st;
                valid = valid;
                user_size = f.user_size;
                controlled = f.controlled;
                state = refl;
                bytes =
                    split_drop (length r.user) r.encoded s r.user (stream_bytes st) bytes
                      (ground (arith, enough)) (omega arith)
                    ∙ ap (λ t. t ++ stream_bytes st) (drop_whole r.user);
                whole = whole;
              },
              rw (state) ground (arith, enough, f.user_size, length-drop (length r.user) r.encoded),
            )
    ]

append-empty : (xs s : Text) → xs ++ s ≡ [] → xs ≡ []
append-empty [] s h = refl
append-empty (x ∷ xs) s h = cc

stop_turn :
    (eof : Bool) (r : VisionReader) (s total : Text)
    → r.encoded ++ s ≡ []
    → r.decoded ++ [] ≡ total
    → Follows r s total
    → IsGoodTurn eof r s total (turn_header eof r)
stop_turn eof r s total bytes whole f =
    let none_left = append-empty r.encoded s bytes in
    let short : ltb (length r.encoded) 5 ≡ true = ap (λ e. ltb (length e) 5) none_left in
    let fine : (eof && not (is_empty r.encoded)) ≡ false =
      ap (λ e. eof && not (is_empty e)) none_left ∙ ground arith in
    rw (short, fine) (f, λ h empty. sym whole ∙ append-nil r.decoded ∙ empty)

started_long : (st : Stream) → IsStarted st → 5 ≤ length (stream_bytes st)
unfolding be_bytes
started_long stop h = absurd h
started_long (block xs ys rest) h = omega arith
started_long (last direct xs ys rest) h = omega arith

turn_at :
    (eof : Bool) (r : VisionReader) (s total : Text) (p : Position)
    → (eof ≡ true → s ≡ [])
    → IsPosition p
    → r.state ≡ state_of p
    → r.encoded ++ s ≡ bytes_of r.user p
    → r.decoded ++ content_of p ≡ total
    → Follows r s total
    → IsGoodTurn eof r s total (decode_turn eof r)
unfolding decode_turn
turn_at eof r s total (at_start st) closed (valid, started) state bytes whole f =
    subst (λ st. IsGoodTurn eof r s total (turn_in eof r st)) (sym state)
      (start_turn eof r s total st closed valid started (started_long st started) state bytes whole
        f)
turn_at eof r s total (at_header stop) closed valid state bytes whole f =
    subst (λ st. IsGoodTurn eof r s total (turn_in eof r st)) (sym state)
      (stop_turn eof r s total bytes whole f)
turn_at eof r s total (at_header (block xs ys rest)) closed (hx, (hy, valid)) state bytes whole f =
    subst (λ st. IsGoodTurn eof r s total (turn_in eof r st)) (sym state)
      (block_turn eof r s total xs ys (more rest) closed hx hy valid f.user_size f.controlled state
        bytes whole f)
turn_at eof r s total (at_header (last direct xs ys rest)) closed (hx, hy) state bytes whole f =
    subst (λ st. IsGoodTurn eof r s total (turn_in eof r st)) (sym state)
      (block_turn eof r s total xs ys (tail direct rest) closed hx hy tt f.user_size f.controlled
        state bytes whole f)
turn_at eof r s total (in_content xs ys a) closed valid state bytes whole f =
    subst (λ st. IsGoodTurn eof r s total (turn_in eof r st)) (sym state)
      (content_turn eof r s total xs ys a closed valid state bytes whole f)
turn_at eof r s total (in_padding ys a) closed valid state bytes whole f =
    subst (λ st. IsGoodTurn eof r s total (turn_in eof r st)) (sym state)
      (padding_turn eof r s total ys a closed valid state bytes whole f)
turn_at eof r s total (in_raw t) closed valid state bytes whole f =
    subst (λ st. IsGoodTurn eof r s total (turn_in eof r st)) (sym state)
      (raw_position eof r r (record r { decoded = r.decoded ++ r.encoded; encoded = [] }) s total t
        closed f.user_size f.controlled state refl bytes refl whole)

-- A turn keeps the reader on its way.
pub decode_turn-IsGoodTurn :
    (eof : Bool) (r : VisionReader) (s total : Text)
    → (eof ≡ true → s ≡ [])
    → Follows r s total
    → IsGoodTurn eof r s total (decode_turn eof r)
decode_turn-IsGoodTurn eof r s total closed f =
    turn_at eof r s total f.position closed f.valid f.state f.bytes f.whole f
