-- ===== src/Protocol/Frame.antt =====
-- The AnyTLS frame: command, stream id, length, payload; `encode_frame`, `read_frame` and the chunks
-- of a long payload.
pub mod Frames
pub mod Inverse
use aerion.Base.{
  ℕ, zero, suc, ◌+◌, ◌-◌, ◌*◌, ◌≤◌, ◌<◌, ◌^◌, ◌%◌, ◌≡◌, refl, sym, ap, ◌∙◌, List, [], ◌∷◌, ◌++◌,
  append_assoc, arith, leb, ltb, ◌==◌, if◌then◌else◌, length, take, drop, length-append, Result, ok,
  err, ◌>>=◌, ok-parts, get_or, take-append_of_length, drop-append_of_length, append-nil, All,
  take-append-drop, take_all, length-take, length-drop,
}
use aerion.Base.Text.{Text}
use aerion.Base.Bytes.{
  IsByte, IsBytes, be_bytes, from_be, length-be_bytes, from_be-be_bytes, be_bytes-from_be,
  from_be-lt,
}
use aerion.Protocol.Stream.{
  WireError, frame_too_large, read_exact, read_exact-append, read_exact-inverse,
}

pub record Frame : Type 0 where
  pub cmd : ℕ
  pub stream_id : ℕ
  pub payload : Text

abbrev pub max_frame_payload_len : ℕ
max_frame_payload_len = 65535

abbrev pub cmd_waste : ℕ
cmd_waste = 0

abbrev pub cmd_psh : ℕ
cmd_psh = 2

-- `encode_frame`: the length is cast to a u16.
unfoldable pub encode_frame : ℕ → ℕ → Text → Text
encode_frame cmd stream_id payload =
    cmd ∷ (be_bytes 4 stream_id ++ (be_bytes 2 (length payload % 2 ^ 16) ++ payload))

-- The payload after a header of seven bytes.
unfoldable pub read_payload : Text → Text → Result WireError (Frame × Text)
read_payload header after = do
  (payload, rest) ← read_exact (from_be (take 2 (drop 5 header))) after
  ok (
    record {
      cmd = get_or header 0 0;
      stream_id = from_be (take 4 (drop 1 header));
      payload = payload;
    },
    rest,
  )

-- `read_frame`
unfoldable pub read_frame : Text → Result WireError (Frame × Text)
unfolding read_payload
read_frame s = do (header, after) ← read_exact 7 s; read_payload header after

-- `write_frame`
unfoldable pub write_frame : ℕ → ℕ → Text → Result WireError Text
write_frame cmd stream_id payload =
    if leb (length payload) max_frame_payload_len
    then ok (encode_frame cmd stream_id payload)
    else err frame_too_large

-- What the fields of a frame hold.
pub record IsFrame (f : Frame) : Type 0 where
  pub cmd : f.cmd < 256
  pub stream_id : f.stream_id < 256 ^ 4
  pub payload : length f.payload ≤ max_frame_payload_len

-- The header of a frame in its three fields.
read_frame_fields :
    (cmd : ℕ) (id len payload rest : Text)
    → length id ≡ 4
    → length len ≡ 2
    → from_be len ≡ length payload
    → read_frame (cmd ∷ (id ++ (len ++ (payload ++ rest))))
      ≡ ok (record { cmd = cmd; stream_id = from_be id; payload = payload }, rest)
unfolding read_frame
read_frame_fields cmd id len payload rest hid hlen size =
    let header : Text = cmd ∷ (id ++ len) in
    let regroup : cmd ∷ (id ++ (len ++ (payload ++ rest))) ≡ header ++ (payload ++ rest) =
      ap (◌∷◌ cmd) (sym (append_assoc id len (payload ++ rest))) in
    let whole : length header ≡ 7 = omega (arith, length-append id len) in
    rw (
      regroup,
      read_exact-append 7 header (payload ++ rest) whole,
      drop-append_of_length 4 id len hid,
      take_all 2 len hlen,
      take-append_of_length 4 id len hid,
      size,
      read_exact-append (length payload) payload rest refl,
    )

-- Reading a frame that was written, with a payload of at most 65535 bytes, gives the frame back and
-- leaves what follows it.
pub read_frame-encode_frame :
    (f : Frame) (rest : Text)
    → IsFrame f
    → read_frame (encode_frame f.cmd f.stream_id f.payload ++ rest) ≡ ok (f, rest)
unfolding encode_frame
read_frame-encode_frame f rest v =
    let id = be_bytes 4 f.stream_id in
    let len = be_bytes 2 (length f.payload % 2 ^ 16) in
    let size : from_be len ≡ length f.payload =
      from_be-be_bytes 2 (length f.payload % 2 ^ 16) (omega arith) ∙ omega (arith, v.payload) in
    rw (append_assoc id (len ++ f.payload) rest, append_assoc len f.payload rest)
      (read_frame_fields f.cmd id len f.payload rest (length-be_bytes 4 f.stream_id)
          (length-be_bytes 2 (length f.payload % 2 ^ 16)) size
        ∙ rw (from_be-be_bytes 4 f.stream_id v.stream_id))
