-- ===== src/Vision/Streams.antt =====
-- What the encoder writes is a stream of blocks, and the reader gives its payloads back.
use aerion.Base.{
  ℕ, ◌+◌, ◌≤◌, ◌<◌, ◌≡◌, refl, sym, ◌∙◌, ap, inl, inr, Bool, true, false, not, ◌&&◌, some, List, [],
  ◌∷◌, ◌++◌, arith, append_assoc, leb, ltb, if◌then◌else◌, length, All, Result, ok, ok_injective,
  ◌>>=◌, Bool-cases,
}
use aerion.Base.Text.{Text}
use aerion.Base.Bytes.{be_bytes}
use aerion.Fragments.Assembly.{joined}
use aerion.Vision.{VisionControl, VisionError}
use aerion.Vision.Reader.{read_to_end, new_reader}
use aerion.Vision.Encoder.{
  VisionEncoder, Random, new_encoder, encode, encode_vision_frame, vision_padding_len, padding_for,
  block_bytes, looks_like_tls13_application_data,
}
use aerion.Vision.Probe.{observe}
use aerion.Vision.Blocks.{
  Stream, stop, block, last, stream_bytes, stream_content, IsStream, IsStarted, at_start,
  block_header, end_command,
}
use aerion.Vision.Reading.{read_to_end-Follows}

-- Payloads that are encoded one after the other, each with what the random source gives.
unfoldable pub encode_all : VisionEncoder → List (Random × Text) → Result VisionError Text
encode_all e [] = ok []
encode_all e ((random, payload) ∷ payloads) =
    let (next, frame) = encode random e payload in
    do bytes ← frame; rest ← encode_all next payloads; ok (bytes ++ rest)

abbrev pub payloads_of : List (Random × Text) → List Text
payloads_of [] = []
payloads_of ((random, payload) ∷ payloads) = payload ∷ payloads_of payloads

-- The random source does not fail, and gives as many bytes as are asked for.
pub record IsWorking (random : Random) : Type 0 where
  pub given : (n : ℕ) × (random.number ≡ some n)
  pub fills : (n : ℕ) → (bytes : Text) × (random.fill n ≡ some bytes) × (length bytes ≡ n)

-- A payload fits a block, and the random source works.
abbrev pub Encodable : Random × Text → Type 0
Encodable (random, payload) = (length payload ≤ 65535) × IsWorking random

regroup_block :
    (command : ℕ) (xs ys rest : Text)
    → block_bytes command xs ys ++ rest ≡ block_header command xs ys ++ (xs ++ (ys ++ rest))
unfolding be_bytes
regroup_block command xs ys rest =
    ap (λ t. block_header command xs ys ++ t) (append_assoc xs ys rest)

padding_small : (n random : ℕ) → padding_for n random ≤ 65535
unfolding padding_for
padding_small n random = ground arith

encode_ended :
    (random : Random) (e : VisionEncoder) (payload : Text)
    → e.ended ≡ true
    → encode random e payload ≡ (e, ok payload)
unfolding encode
encode_ended random e payload h = simp h refl

-- What was written once the encoder has ended.
ended_raw :
    (e : VisionEncoder) (payloads : List (Random × Text))
    → e.ended ≡ true
    → encode_all e payloads ≡ ok (joined (payloads_of payloads))
unfolding encode_all
ended_raw e [] h = refl
ended_raw e ((random, payload) ∷ payloads) h =
    rw (encode_ended random e payload h, ended_raw e payloads h) refl

-- One payload in a block.
record InBlock (random : Random) (write_uuid : Bool) (user : Text) (command : ℕ) (payload : Text)
    (frame : Result VisionError Text) : Type 0 where
  padding : Text
  short : length padding ≤ 65535
  framed : frame ≡ ok ((if write_uuid then user else []) ++ block_bytes command payload padding)

encode_vision_frame-InBlock :
    (random : Random) (user : Text) (write_uuid : Bool) (command : ℕ) (payload : Text)
    → Encodable (random, payload)
    → InBlock random write_uuid user command payload
        (encode_vision_frame random user write_uuid command payload)
unfolding encode_vision_frame vision_padding_len
encode_vision_frame-InBlock random user write_uuid command payload (small, w) =
    let (number, drawn) = w.given in
    let (padding, filled, size) = w.fills (padding_for (length payload) number) in
    let fits : ltb 65535 (length payload) ≡ false = ground (arith, small) in
    record {
      padding = padding;
      short = omega (arith, size, padding_small (length payload) number);
      framed = simp (fits, drawn, filled) refl;
    }

-- The three ways in which a payload leaves the encoder.
data Outcome (random : Random) (e : VisionEncoder) (payload : Text)
    (step : VisionEncoder × Result VisionError Text) : Type 0 where
  goes_on :
      step.0.ended ≡ false
      → step.0.uuid_written ≡ true
      → step.0.user ≡ e.user
      → InBlock random (not e.uuid_written) e.user 0 payload step.1
      → Outcome random e payload step
  ends :
      (direct : Bool)
      → step.0.ended ≡ true
      → InBlock random (not e.uuid_written) e.user (end_command direct) payload step.1
      → Outcome random e payload step

encode-Outcome :
    (random : Random) (e : VisionEncoder) (payload : Text)
    → e.ended ≡ false
    → Encodable (random, payload)
    → Outcome random e payload (encode random e payload)
unfolding encode
encode-Outcome random e payload h fine =
    let filter = observe payload false e.control.filter in
    let blocks = if leb 255 e.blocks then 255 else e.blocks + 1 in
    let write_uuid = not e.uuid_written in
    elim (Bool-cases (filter.tls && looks_like_tls13_application_data payload)) [
      | inl c ↦ elim (Bool-cases filter.direct) [
        | inl d ↦
            rw (h, c, d)
              (ends true refl (encode_vision_frame-InBlock random e.user write_uuid 2 payload fine))
        | inr d ↦
            rw (h, c, d)
              (ends false refl
                (encode_vision_frame-InBlock random e.user write_uuid 1 payload fine))
      ]
      | inr c ↦ elim (Bool-cases (not filter.tls && leb 8 blocks)) [
        | inl d ↦
            rw (h, c, d)
              (ends false refl
                (encode_vision_frame-InBlock random e.user write_uuid 1 payload fine))
        | inr d ↦
            rw (h, c, d)
              (goes_on refl refl refl
                (encode_vision_frame-InBlock random e.user write_uuid 0 payload fine))
      ]
    ]

-- The stream of an encoder that has written its user.
blocks_written :
    (e : VisionEncoder) (payloads : List (Random × Text))
    → e.ended ≡ false
    → e.uuid_written ≡ true
    → All Encodable payloads
    → (st : Stream) × (encode_all e payloads ≡ ok (stream_bytes st))
      × IsStream st
      × (stream_content st ≡ joined (payloads_of payloads))
unfolding encode_all
blocks_written e [] h written fine = (stop, refl, tt, refl)
blocks_written e ((random, payload) ∷ payloads) h written (f, fine) =
    elim (encode-Outcome random e payload h f) [
      | goes_on unended written' same b ↦
          let (st, encoded, valid, whole) =
            blocks_written (encode random e payload).0 payloads unended written' fine in
          (
            block payload b.padding st,
            rw (b.framed, encoded, written)
                (ap ok (regroup_block 0 payload b.padding (stream_bytes st))),
            (f.0, (b.short, valid)),
            ap (λ t. payload ++ t) whole,
          )
      | ends direct closed b ↦
          let rest = joined (payloads_of payloads) in
          (
            last direct payload b.padding rest,
            rw (b.framed, ended_raw (encode random e payload).0 payloads closed, written)
                (ap ok (regroup_block (end_command direct) payload b.padding rest)),
            (f.0, b.short),
            refl,
          )
    ]

-- The stream of a new encoder: the user, and then blocks.
stream_written :
    (user : Text) (control : VisionControl) (random : Random) (payload : Text)
    (payloads : List (Random × Text))
    → Encodable (random, payload)
    → All Encodable payloads
    → (st : Stream) × (encode_all (new_encoder user control) ((random, payload) ∷ payloads)
        ≡ ok (user ++ stream_bytes st))
      × IsStream st
      × IsStarted st
      × (stream_content st ≡ joined (payload ∷ payloads_of payloads))
unfolding encode_all
stream_written user control random payload payloads f fine =
    let e = new_encoder user control in
    elim (encode-Outcome random e payload refl f) [
      | goes_on unended written' same b ↦
          let (st, encoded, valid, whole) =
            blocks_written (encode random e payload).0 payloads unended written' fine in
          (
            block payload b.padding st,
            rw (b.framed, encoded)
                (ap ok (
                  append_assoc user (block_bytes 0 payload b.padding) (stream_bytes st)
                  ∙ ap (λ t. user ++ t) (regroup_block 0 payload b.padding (stream_bytes st)))),
            (f.0, (b.short, valid)),
            tt,
            ap (λ t. payload ++ t) whole,
          )
      | ends direct closed b ↦
          let rest = joined (payloads_of payloads) in
          (
            last direct payload b.padding rest,
            rw (b.framed, ended_raw (encode random e payload).0 payloads closed)
                (ap ok (
                  append_assoc user (block_bytes (end_command direct) payload b.padding) rest
                  ∙ ap (λ t. user ++ t)
                      (regroup_block (end_command direct) payload b.padding rest))),
            (f.0, b.short),
            tt,
            refl,
          )
    ]

-- A new encoder writes one or more payloads of at most 65535 bytes for a user of 16 bytes, where
-- the random source does not fail and gives as many bytes of padding, any bytes, as it is asked for. The bytes reach a new reader for that user, with a switchable
-- transport, in chunks of any sizes of which none is empty. Then reads into a buffer of any size but zero,
-- until one gives nothing, give the payloads, joined, and one read more than they have bytes is enough.
pub read_to_end-encode_all :
    (user : Text) (ours theirs : VisionControl) (first : Random × Text)
    (payloads : List (Random × Text)) (bytes : Text) (chunks : List Text) (room fuel : ℕ)
    → length user ≡ 16
    → All Encodable (first ∷ payloads)
    → encode_all (new_encoder user ours) (first ∷ payloads) ≡ ok bytes
    → joined chunks ≡ bytes
    → All (λ chunk. 0 < length chunk) chunks
    → 0 < room
    → length (joined (payloads_of (first ∷ payloads))) < fuel
    → read_to_end fuel room (new_reader user (some theirs)) chunks
      ≡ some (ok (joined (payloads_of (first ∷ payloads))))
read_to_end-encode_all user ours theirs (random, payload) payloads bytes chunks room fuel size
      (f, fine) encoded cut nonempty h enough =
    let (st, e, valid, started, whole) = stream_written user ours random payload payloads f fine in
    read_to_end-Follows fuel room (new_reader user (some theirs))
      (joined (payload ∷ payloads_of payloads)) chunks h nonempty
      (record {
        position = at_start st;
        valid = (valid, started);
        user_size = size;
        controlled = refl;
        state = refl;
        bytes = cut ∙ ok_injective (sym encoded ∙ e);
        whole = whole;
      })
      enough
