-- ===== src/Protocol/Padded/Delivery.antt =====
-- What the receiver makes of a padded stream: the frames that were written, in their order.
use aerion.Base.{
  ℕ, ◌≡◌, ◌≢◌, refl, sym, ◌∙◌, inl, inr, true, not, ◌&&◌, List, [], ◌∷◌, ◌++◌, arith, All, leb,
  length, Result, ok, Bool-cases,
}
use aerion.Base.Text.{Text}
use aerion.Padding.Scheme.{IsScheme}
use aerion.Protocol.Stream.{WireError}
use aerion.Protocol.Frame.{Frame, IsFrame, encode_frame, cmd_waste}
use aerion.Protocol.Frame.Frames.{
  encode_frames, encode_frames-append, kept, kept-append, All-append, read_frames,
  read_frames-encode_frames,
}
use aerion.Protocol.Padded.{
  PaddedFrameWriter, write_packet, write_padded_frame, write_padded_frames,
}
use aerion.Protocol.Padded.Records.{IsFilled, nothing_added, write_packet-IsFilled, IsShort}

module _ (random : ℕ → ℕ → ℕ) where
  -- Frames that a receiver keeps.
  abbrev pub IsData : Frame → Type 0
  IsData f = IsFrame f × (f.cmd ≢ cmd_waste)

  record IsDelivered (fs : List Frame) (out : Text) : Type 0 where
    sent : List Frame
    frames : All IsFrame sent
    kept_frames : kept sent ≡ fs
    bytes : out ≡ encode_frames sent

  one_frame :
      (f : Frame) (out : Text)
      → IsData f
      → IsFilled (encode_frame f.cmd f.stream_id f.payload) out
      → IsDelivered (f ∷ []) out
  unfolding kept encode_frames
  one_frame f out h filled = record {
    sent = f ∷ filled.wastes;
    frames = (h.0, filled.frames);
    kept_frames = ground (arith, h.1, filled.none_kept);
    bytes = filled.bytes;
  }

  then_frames :
      (f : Frame) (fs : List Frame) (first later : Text)
      → IsDelivered (f ∷ []) first
      → IsDelivered fs later
      → IsDelivered (f ∷ fs) (first ++ later)
  then_frames f fs first later d e = record {
    sent = d.sent ++ e.sent;
    frames = All-append IsFrame d.sent e.sent d.frames e.frames;
    kept_frames = kept-append d.sent e.sent ∙ rw (d.kept_frames, e.kept_frames) refl;
    bytes = rw (d.bytes, e.bytes) (sym (encode_frames-append d.sent e.sent));
  }

  -- A writer whose scheme the parser accepts and whose ranges fit a waste frame.
  abbrev pub IsWriter : PaddedFrameWriter → Type 0
  IsWriter w = IsScheme w.padding × IsShort w.padding

  record IsWritten (w : PaddedFrameWriter) (fs : List Frame)
      (r : Result WireError (PaddedFrameWriter × Text)) : Type 0 where
    writer : PaddedFrameWriter
    out : Text
    result : r ≡ ok (writer, out)
    same_padding : writer.padding ≡ w.padding
    delivered : IsDelivered fs out

  write_padded_frame-IsWritten :
      (w : PaddedFrameWriter) (f : Frame)
      → IsWriter w
      → IsData f
      → IsWritten w (f ∷ []) (write_padded_frame random w f)
  unfolding write_padded_frame
  write_padded_frame-IsWritten w f (h, short) fine =
      let frame = encode_frame f.cmd f.stream_id f.payload in
      let (filled, same) = write_packet-IsFilled random w frame h short in
      let fits : leb (length f.payload) 65535 ≡ true = ground (arith, fine.0.payload) in
      elim (Bool-cases
        ((not w.send_padding && leb 32768 (length f.payload)) && w.is_write_vectored)) [
          | inl long ↦ record {
            writer = w;
            out = frame;
            result = rw (fits, long) refl;
            same_padding = refl;
            delivered = one_frame f frame fine (nothing_added frame);
          }
          | inr short ↦ record {
            writer = (write_packet random w frame).0;
            out = (write_packet random w frame).1;
            result = rw (fits, short) refl;
            same_padding = same;
            delivered = one_frame f (write_packet random w frame).1 fine filled;
          }
        ]

  write_padded_frames-IsWritten :
      (w : PaddedFrameWriter) (fs : List Frame)
      → IsWriter w
      → All IsData fs
      → IsWritten w fs (write_padded_frames random w fs)
  unfolding write_padded_frames kept encode_frames
  write_padded_frames-IsWritten w [] h fine = record {
    writer = w;
    out = [];
    result = refl;
    same_padding = refl;
    delivered = record { sent = []; frames = tt; kept_frames = refl; bytes = refl };
  }
  write_padded_frames-IsWritten w (f ∷ fs) h fine =
      let first = write_padded_frame-IsWritten w f h fine.0 in
      let later = write_padded_frames-IsWritten first.writer fs (rw first.same_padding h) fine.1 in
      record {
        writer = later.writer;
        out = first.out ++ later.out;
        result = rw (first.result) (rw (later.result) refl);
        same_padding = later.same_padding ∙ first.same_padding;
        delivered = then_frames f fs first.out later.out first.delivered later.delivered;
      }

  -- A writer with a scheme that `from_text` accepts, whose ranges end at 65535 at most, whatever
  -- padding is drawn: frames of at most 65535 bytes that are not waste frames are all written, and a
  -- receiver that reads the bytes frame by frame and drops the waste frames gets just these frames in
  -- their order.
  pub write_padded_frames-delivers :
      (w : PaddedFrameWriter) (fs : List Frame)
      → IsWriter w
      → All IsData fs
      → (w' : PaddedFrameWriter) × (out : Text) × (sent : List Frame) × (write_padded_frames random
            w fs
          ≡ ok (w', out))
        × (read_frames (length sent) out ≡ ok sent)
        × (kept sent ≡ fs)
  write_padded_frames-delivers w fs h fine =
      let written = write_padded_frames-IsWritten w fs h fine in
      let d = written.delivered in
      (
        written.writer,
        written.out,
        d.sent,
        written.result,
        rw (d.bytes) (read_frames-encode_frames d.sent d.frames),
        d.kept_frames,
      )
