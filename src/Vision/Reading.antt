-- ===== src/Vision/Reading.antt =====
-- Reading a padded stream to its end, whatever the sizes of the chunks and of the buffer.
use aerion.Base.{
  ℕ, zero, suc, ◌<◌, ◌≡◌, refl, sym, ◌∙◌, ap, subst, ◌⊎◌, inl, inr, Bool, true, false, ◌&&◌, Option,
  some, List, [], ◌∷◌, ◌++◌, arith, append_assoc, leb, if◌then◌else◌, is_empty, is_some, length,
  take, drop, All, length-append, length-take, length-drop, take-append-drop, Result, ok,
  Bool-cases,
}
use aerion.Base.Text.{Text}
use aerion.Fragments.Assembly.{joined}
use aerion.Vision.{VisionReader, VisionError, decode_available}
use aerion.Vision.Reader.{after_decode, is_raw, read_inner, read_loop, poll_read, read_to_end, Read}
use aerion.Vision.Blocks.{
  Position, at_start, at_header, in_content, in_padding, in_raw, state_of, content_of, bytes_of,
  Follows,
}
use aerion.Vision.Delivery.{
  Decoded, Progress, decode_available-Decoded, empty_is_nil, is_raw-raw, Progress,
  poll_decoded-Progress,
}

-- What a read gives: at the end nothing, and before it some bytes of the content.
data Reads (total : Text) (result : Option (Result VisionError Read)) : Type 0 where
  at_end :
      (r : VisionReader) (chunks : List Text)
      → result ≡ some (ok ([], (r, chunks)))
      → total ≡ []
      → Reads total result
  gives :
      (bytes : Text) (r : VisionReader) (chunks : List Text)
      → result ≡ some (ok (bytes, (r, chunks)))
      → All (λ chunk. 0 < length chunk) chunks
      → Progress bytes r (joined chunks) total
      → Reads total result

-- After decoding, either some bytes are handed on, or nothing was decoded and the reader goes on.
after_decode-cases :
    (room : ℕ) (eof : Bool) (s total : Text) (chunks : List Text)
    (result : Option (Result VisionError VisionReader))
    (missing : VisionReader → Option (Result VisionError Read))
    → 0 < room
    → s ≡ joined chunks
    → All (λ chunk. 0 < length chunk) chunks
    → Decoded eof s total result
    → Reads total (after_decode room chunks result missing)
      ⊎ ((r : VisionReader) × (after_decode room chunks result missing ≡ missing r)
          × Follows r s total
          × (r.decoded ≡ [])
          × (eof ≡ true → total ≡ []))
after_decode-cases room eof s total chunks result missing h same nonempty d =
    elim (poll_decoded-Progress room d.next s total h d.follows) [
      | inl (poll, empty) ↦
          inr (d.next, (rw (d.decodes, poll) refl), d.follows, empty, λ e. d.ends e empty)
      | inr (bytes, next, poll, p) ↦ inl (
          gives bytes next chunks (rw (d.decodes, poll) refl) nonempty
            (subst (λ t. Progress bytes next t total) same p))
    ]

raw_whole :
    (p : Position) (user s encoded : Text)
    → is_raw (state_of p) ≡ true
    → encoded ++ s ≡ bytes_of user p
    → content_of p ≡ encoded ++ s
raw_whole (at_start st) user s encoded h e = cc
raw_whole (at_header st) user s encoded h e = cc
raw_whole (in_content xs ys a) user s encoded h e = cc
raw_whole (in_padding ys a) user s encoded h e = cc
raw_whole (in_raw t) user s encoded h e = sym e

-- Once the stream is raw and nothing is held back, the rest is what is still to come.
raw_total :
    (r : VisionReader) (s total : Text)
    → Follows r s total
    → r.decoded ≡ []
    → is_raw r.state ≡ true
    → is_empty r.encoded ≡ true
    → total ≡ s
raw_total r s total f empty h none_left =
    sym f.whole
    ∙ ap (λ d. d ++ content_of f.position) empty
    ∙ raw_whole f.position r.user s r.encoded (ap is_raw (sym f.state) ∙ h) f.bytes
    ∙ ap (λ e. e ++ s) (empty_is_nil r.encoded none_left)

raw_Follows :
    (r : VisionReader) (s : Text)
    → length r.user ≡ 16
    → is_some r.control ≡ true
    → is_raw r.state ≡ true
    → r.encoded ≡ []
    → r.decoded ≡ []
    → Follows r s s
raw_Follows r s user_size controlled h encoded decoded = record {
  position = in_raw s;
  valid = tt;
  user_size = user_size;
  controlled = controlled;
  state = is_raw-raw r.state h;
  bytes = ap (λ e. e ++ s) encoded;
  whole = ap (λ d. d ++ s) decoded;
}

raw_test :
    (r : VisionReader)
    → (is_raw r.state && is_empty r.encoded) ≡ true
    → (is_raw r.state ≡ true) × (is_empty r.encoded ≡ true)
raw_test r h = ground (arith, h)

-- The end of the input.
read_end-Reads :
    (room : ℕ) (r : VisionReader) (total : Text)
    → 0 < room
    → Follows r [] total
    → Reads total (after_decode room [] (decode_available true r) (λ t. some (ok ([], (t, [])))))
read_end-Reads room r total h f =
    elim (after_decode-cases room true [] total [] (decode_available true r)
      (λ t. some (ok ([], (t, [])))) h refl tt
      (decode_available-Decoded true r [] total (λ e. refl) f)) [
        | inl reads ↦ reads
        | inr (t, e, f', empty, ended) ↦ at_end t [] e (ended refl)
      ]

-- The stream is raw, and the inner stream is read straight into the buffer.
read_inner-Reads :
    (room : ℕ) (r : VisionReader) (total : Text) (chunks : List Text)
    → 0 < room
    → All (λ chunk. 0 < length chunk) chunks
    → Follows r (joined chunks) total
    → r.decoded ≡ []
    → (is_raw r.state && is_empty r.encoded) ≡ true
    → Reads total (some (ok (read_inner room r chunks)))
unfolding read_inner
read_inner-Reads room r total [] h nonempty f empty is_direct =
    let (is_raw', none_left) = raw_test r is_direct in
    at_end r [] refl (raw_total r [] total f empty is_raw' none_left)
read_inner-Reads room r total (chunk ∷ chunks) h (some_chunk, nonempty) f empty is_direct =
    let (is_raw', none_left) = raw_test r is_direct in
    let whole = raw_total r (chunk ++ joined chunks) total f empty is_raw' none_left in
    let next = λ (s : Text).
      raw_Follows r s f.user_size f.controlled is_raw' (empty_is_nil r.encoded none_left) empty in
    elim (Bool-cases (leb (length chunk) room)) [
      | inl e ↦ gives chunk r chunks (rw e refl) nonempty (record {
        some_bytes = some_chunk;
        rest = joined chunks;
        whole = whole;
        follows = next (joined chunks);
      })
      | inr e ↦
          gives (take room chunk) r (drop room chunk ∷ chunks) (rw e refl)
            (ground (arith, e, length-drop room chunk), nonempty)
            (record {
              some_bytes = ground (arith, e, h, length-take room chunk);
              rest = drop room chunk ++ joined chunks;
              whole =
                  whole
                  ∙ ap (λ c. c ++ joined chunks) (sym (take-append-drop room chunk))
                  ∙ append_assoc (take room chunk) (drop room chunk) (joined chunks);
              follows = next (drop room chunk ++ joined chunks);
            })
    ]

read_loop-Reads :
    (room : ℕ) (r : VisionReader) (total : Text) (chunks : List Text)
    → 0 < room
    → All (λ chunk. 0 < length chunk) chunks
    → Follows r (joined chunks) total
    → Reads total (read_loop room r chunks)
unfolding read_loop
read_loop-Reads room r total [] h nonempty f =
    elim (after_decode-cases room false [] total [] (decode_available false r)
      (λ s.
        if is_raw s.state && is_empty s.encoded
        then some (ok (read_inner room s []))
        else after_decode room [] (decode_available true s) (λ t. some (ok ([], (t, [])))))
      h refl tt (decode_available-Decoded false r [] total (λ e. cc) f)) [
        | inl reads ↦ reads
        | inr (s, e, f', empty, ended) ↦
            subst (Reads total) (sym e) (elim (Bool-cases (is_raw s.state && is_empty s.encoded)) [
              | inl d ↦ rw d (read_inner-Reads room s total [] h tt f' empty d)
              | inr d ↦ rw d (read_end-Reads room s total h f')
            ])
      ]
read_loop-Reads room r total (chunk ∷ chunks) h (some_chunk, nonempty) f =
    elim (after_decode-cases room false (chunk ++ joined chunks) total (chunk ∷ chunks)
      (decode_available false r)
      (λ s.
        if is_raw s.state && is_empty s.encoded
        then some (ok (read_inner room s (chunk ∷ chunks)))
        else after_decode room chunks
            (decode_available false (record s { encoded = s.encoded ++ chunk }))
            (λ t. read_loop room t chunks))
      h refl (some_chunk, nonempty)
      (decode_available-Decoded false r (chunk ++ joined chunks) total (λ e. cc) f)) [
        | inl reads ↦ reads
        | inr (s, e, f', empty, ended) ↦
            subst (Reads total) (sym e) (elim (Bool-cases (is_raw s.state && is_empty s.encoded)) [
              | inl d ↦ rw d (
                  read_inner-Reads room s total (chunk ∷ chunks) h (some_chunk, nonempty) f' empty
                    d)
              | inr d ↦
                  let grown : VisionReader = record s { encoded = s.encoded ++ chunk } in
                  let g : Follows grown (joined chunks) total = record {
                    position = f'.position;
                    valid = f'.valid;
                    user_size = f'.user_size;
                    controlled = f'.controlled;
                    state = f'.state;
                    bytes = append_assoc s.encoded chunk (joined chunks) ∙ f'.bytes;
                    whole = f'.whole;
                  } in
                  rw d
                    (elim (after_decode-cases room false (joined chunks) total chunks
                      (decode_available false grown) (λ t. read_loop room t chunks) h refl nonempty
                      (decode_available-Decoded false grown (joined chunks) total (λ e. cc) g)) [
                        | inl reads ↦ reads
                        | inr (t, e', f'', empty', ended') ↦
                            subst (Reads total) (sym e')
                              (read_loop-Reads room t total chunks h nonempty f'')
                      ])
            ])
      ]

poll_read-Reads :
    (room : ℕ) (r : VisionReader) (total : Text) (chunks : List Text)
    → 0 < room
    → All (λ chunk. 0 < length chunk) chunks
    → Follows r (joined chunks) total
    → Reads total (poll_read room r chunks)
unfolding poll_read
poll_read-Reads room r total chunks h nonempty f =
    elim (poll_decoded-Progress room r (joined chunks) total h f) [
      | inl (poll, empty) ↦ rw poll (read_loop-Reads room r total chunks h nonempty f)
      | inr (bytes, next, poll, p) ↦ rw poll (gives bytes next chunks refl nonempty p)
    ]

-- Reading to the end gives the content, and one read more than it has bytes is enough.
pub read_to_end-Follows :
    (fuel room : ℕ) (r : VisionReader) (total : Text) (chunks : List Text)
    → 0 < room
    → All (λ chunk. 0 < length chunk) chunks
    → Follows r (joined chunks) total
    → length total < fuel
    → read_to_end fuel room r chunks ≡ some (ok total)
unfolding read_to_end
read_to_end-Follows zero room r total chunks h nonempty f enough = absurd (omega arith)
read_to_end-Follows (suc fuel) room r total chunks h nonempty f enough =
    elim (poll_read-Reads room r total chunks h nonempty f) [
      | at_end r' chunks' e none_left ↦ rw (e, read_to_end, none_left) refl
      | gives bytes r' chunks' e nonempty' p ↦
          let rest =
            read_to_end-Follows fuel room r' p.rest chunks' h nonempty' p.follows (
              omega (arith, enough, p.some_bytes, ap length p.whole, length-append bytes p.rest)) in
          let filled : is_empty bytes ≡ false = ground (arith, p.some_bytes) in
          rw (e, read_to_end, filled, rest) (ap (λ t. some (ok t)) (sym p.whole))
    ]
