-- ===== src/Protocol/Frame/Frames.antt =====
-- The receiving loop: frames read one after the other until the stream ends, with waste frames left out.
use aerion.Base.{
  ℕ, zero, suc, ◌≡◌, refl, sym, ap, ◌∙◌, List, [], ◌∷◌, ◌++◌, append_assoc, arith, All, ◌==◌,
  if◌then◌else◌, length, Result, ok, err, ◌>>=◌,
}
use aerion.Base.Text.{Text}
use aerion.Protocol.Stream.{WireError, incomplete}
use aerion.Protocol.Frame.{
  Frame, IsFrame, encode_frame, read_frame, cmd_waste, read_frame-encode_frame,
}

-- Reading frames to the end of the stream, on at most `fuel` frames.
unfoldable pub read_frames : ℕ → Text → Result WireError (List Frame)
read_frames fuel [] = ok []
read_frames zero (b ∷ s) = err incomplete
read_frames (suc fuel) (b ∷ s) = do
  next ← read_frame (b ∷ s)
  frames ← read_frames fuel next.1
  ok (next.0 ∷ frames)

-- What a receiver keeps: it drops waste frames.
unfoldable pub kept : List Frame → List Frame
kept [] = []
kept (f ∷ fs) = let rest = kept fs in if f.cmd == cmd_waste then rest else f ∷ rest

-- Frames written one after the other.
unfoldable pub encode_frames : List Frame → Text
encode_frames [] = []
encode_frames (f ∷ fs) = encode_frame f.cmd f.stream_id f.payload ++ encode_frames fs

pub encode_frames-append :
    (fs gs : List Frame) → encode_frames (fs ++ gs) ≡ encode_frames fs ++ encode_frames gs
unfolding encode_frames
encode_frames-append [] gs = refl
encode_frames-append (f ∷ fs) gs =
    ap (λ xs. encode_frame f.cmd f.stream_id f.payload ++ xs) (encode_frames-append fs gs)
    ∙ sym (
        append_assoc (encode_frame f.cmd f.stream_id f.payload) (encode_frames fs)
          (encode_frames gs))

pub kept-append : (fs gs : List Frame) → kept (fs ++ gs) ≡ kept fs ++ kept gs
unfolding kept
kept-append [] gs = refl
kept-append (f ∷ fs) gs = ground (arith, kept-append fs gs)

pub All-append {ℓ κ} :
    {A : Type ℓ} (P : A → Type κ) (xs ys : List A) → All P xs → All P ys → All P (xs ++ ys)
All-append P [] ys hx hy = hy
All-append P (x ∷ xs) ys hx hy = (hx.0, All-append P xs ys hx.1 hy)

read_frames_step :
    (fuel : ℕ) (f : Frame) (rest : Text) (fs : List Frame)
    → IsFrame f
    → read_frames fuel rest ≡ ok fs
    → read_frames (suc fuel) (encode_frame f.cmd f.stream_id f.payload ++ rest) ≡ ok (f ∷ fs)
unfolding read_frames encode_frame
read_frames_step fuel f rest fs v e = rw (read_frame-encode_frame f rest v) (rw e refl)

-- As much fuel as there are frames is enough: the frames that were written are read, in order.
pub read_frames-encode_frames :
    (fs : List Frame) → All IsFrame fs → read_frames (length fs) (encode_frames fs) ≡ ok fs
unfolding encode_frames
read_frames-encode_frames [] h = unfold read_frames in refl
read_frames-encode_frames (f ∷ fs) h =
    read_frames_step (length fs) f (encode_frames fs) fs h.0 (read_frames-encode_frames fs h.1)
