-- ===== src/Protocol/Padded.antt =====
-- `PaddedFrameWriter`: frames split into records of drawn sizes and filled up with waste frames. The
-- bytes given to the inner writer are the result; its own failures and flushes are left out.
pub mod Records
pub mod Delivery
use aerion.Base.{
  ℕ, zero, suc, ◌+◌, ◌-◌, ◌≤◌, ◌<◌, ◌^◌, ◌≡◌, refl, Bool, true, false, not, ◌&&◌, List, [], ◌∷◌,
  ◌++◌, leb, ltb, ◌==◌, if◌then◌else◌, length, take, drop, replicate, is_empty, Result, ok, err,
  ◌>>=◌,
}
use aerion.Base.Text.{Text}
use aerion.Padding.{
  PaddingScheme, padding_checkpoint, record_payload_sizes, preface_padding_len, PaddingError,
  from_text,
}
use aerion.Protocol.Stream.{WireError, frame_too_large}
use aerion.Protocol.Frame.{Frame, encode_frame, cmd_waste, cmd_psh, max_frame_payload_len}

pub record PaddedFrameWriter : Type 0 where
  pub padding : PaddingScheme
  pub packet_counter : ℕ
  pub send_padding : Bool
  -- `is_write_vectored` of the inner writer
  pub is_write_vectored : Bool

-- `new`
abbrev pub new_writer : PaddingScheme → Bool → PaddedFrameWriter
new_writer padding vectored = record {
  padding = padding;
  packet_counter = 0;
  send_padding = true;
  is_write_vectored = vectored;
}

-- A waste frame of zero bytes.
abbrev pub waste : ℕ → Text
waste size = encode_frame cmd_waste 0 (replicate size 0)

-- One size for a payload that is not larger: the payload, with a waste frame if there is room for a
-- frame header.
unfoldable pub last_record : ℕ → Text → Text
last_record size payload =
    if ltb (length payload + 7) size then payload ++ waste (size - length payload - 7) else payload

-- The loop over the sizes: what it writes and what it leaves of the payload.
unfoldable pub write_records : List ℕ → Text → Text × Text
unfolding last_record
write_records [] payload = ([], payload)
write_records (size ∷ sizes) payload =
    let again = write_records sizes payload in
    let rest = write_records sizes (drop size payload) in
    let done = write_records sizes [] in
    if size == padding_checkpoint
    then (if is_empty payload then ([], []) else again)
    else if ltb size (length payload)
    then (take size payload ++ rest.0, rest.1)
    else if is_empty payload
    then (waste size ++ done.0, done.1)
    else (last_record size payload ++ done.0, done.1)

-- `saturating_add` on a u32
abbrev pub saturating_succ : ℕ → ℕ
saturating_succ n = if ltb n (2 ^ 32 - 1) then n + 1 else n

-- `random packet i` is the i-th number drawn for a packet.
module _ (random : ℕ → ℕ → ℕ) where
  -- `write_packet`
  unfoldable pub write_packet : PaddedFrameWriter → Text → PaddedFrameWriter × Text
  unfolding write_records record_payload_sizes
  write_packet w payload =
      let packet = saturating_succ w.packet_counter in
      let counted : PaddedFrameWriter = record {
        padding = w.padding;
        packet_counter = packet;
        send_padding = true;
        is_write_vectored = w.is_write_vectored;
      } in
      let stopped : PaddedFrameWriter = record {
        padding = w.padding;
        packet_counter = packet;
        send_padding = false;
        is_write_vectored = w.is_write_vectored;
      } in
      let written = write_records (record_payload_sizes w.padding packet (random packet)) payload in
      if w.send_padding
      then (if ltb packet w.padding.stop
          then (counted, written.0 ++ written.1)
          else (stopped, payload))
      else (w, payload)

  -- `write_frame_with_flush`: a long frame goes past the padding when that has ended.
  unfoldable pub write_padded_frame :
      PaddedFrameWriter → Frame → Result WireError (PaddedFrameWriter × Text)
  unfolding write_packet
  write_padded_frame w f =
      let frame = encode_frame f.cmd f.stream_id f.payload in
      if leb (length f.payload) max_frame_payload_len
      then (if (not w.send_padding && leb 32768 (length f.payload)) && w.is_write_vectored
          then ok (w, frame)
          else ok (write_packet w frame))
      else err frame_too_large

  -- Frames written one after the other on the same writer.
  unfoldable pub write_padded_frames :
      PaddedFrameWriter → List Frame → Result WireError (PaddedFrameWriter × Text)
  unfolding write_padded_frame
  write_padded_frames w [] = ok (w, [])
  write_padded_frames w (f ∷ fs) = do
    first ← write_padded_frame w f
    later ← write_padded_frames first.0 fs
    ok (later.0, first.1 ++ later.1)

-- `payload.chunks(n)` for a positive `n`, on fuel of at least the number of bytes.
unfoldable pub chunks : ℕ → ℕ → Text → List Text
chunks zero n payload = []
chunks (suc fuel) n [] = []
chunks (suc fuel) n (b ∷ s) = take n (b ∷ s) ∷ chunks fuel n (drop n (b ∷ s))

abbrev pub push_frames : ℕ → List Text → List Frame
push_frames stream_id [] = []
push_frames stream_id (c ∷ cs) =
    record { cmd = cmd_psh; stream_id = stream_id; payload = c } ∷ push_frames stream_id cs

-- `write_payload_chunks` of the padded writer
unfoldable pub write_payload_chunks :
    (ℕ → ℕ → ℕ) → PaddedFrameWriter → ℕ → Text → Result WireError (PaddedFrameWriter × Text)
unfolding chunks write_padded_frames
write_payload_chunks random w stream_id payload =
    write_padded_frames random w
      (push_frames stream_id (chunks (length payload) max_frame_payload_len payload))

-- `update_padding_scheme`
unfoldable pub update_padding_scheme :
    (Text → Text) → PaddedFrameWriter → Text → Result PaddingError PaddedFrameWriter
unfolding from_text
update_padding_scheme md5_hex w raw = do
  padding ← from_text md5_hex raw
  ok (record {
    padding = padding;
    packet_counter = w.packet_counter;
    send_padding = w.send_padding;
    is_write_vectored = w.is_write_vectored;
  })
