-- ===== src/Protocol/Frame/Inverse.antt =====
-- What `read_frame` accepts: only what `encode_frame` writes.
use aerion.Base.{
  ℕ, ◌≤◌, ◌<◌, ◌^◌, ◌%◌, ◌≡◌, sym, ap, ◌∙◌, [], ◌∷◌, ◌++◌, append_assoc, arith, length, take, drop,
  Result, ok, ok-parts, get_or, take-append-drop, length-take, length-drop, take_all,
}
use aerion.Base.Text.{Text}
use aerion.Base.Bytes.{IsBytes, be_bytes, from_be, be_bytes-from_be, from_be-lt}
use aerion.Protocol.Stream.{WireError, read_exact, read_exact-inverse}
use aerion.Protocol.Frame.{
  Frame, IsFrame, read_frame, read_payload, encode_frame, max_frame_payload_len,
}

IsBytes-parts : (xs ys : Text) → IsBytes (xs ++ ys) → IsBytes xs × IsBytes ys
IsBytes-parts [] ys h = (tt, h)
IsBytes-parts (x ∷ xs) ys h = let (a, b) = IsBytes-parts xs ys h.1 in ((h.0, a), b)

-- Four bytes and two bytes of a header, read and written again.
reread :
    (k : ℕ) (bs : Text)
    → IsBytes bs
    → length bs ≡ k
    → (be_bytes k (from_be bs) ≡ bs) × (from_be bs < 256 ^ k)
reread k bs h size = rw (← size) (be_bytes-from_be bs h, from_be-lt bs h)

encode_fields :
    (tail payload : Text)
    → IsBytes tail
    → length tail ≡ 6
    → length payload ≡ from_be (take 2 (drop 4 tail))
    → (be_bytes 4 (from_be (take 4 tail)) ++ (be_bytes 2 (length payload % 2 ^ 16) ++ payload)
        ≡ tail ++ payload)
      × (from_be (take 4 tail) < 256 ^ 4)
      × (length payload ≤ max_frame_payload_len)
encode_fields tail payload h size len =
    let parts = IsBytes-parts (take 4 tail) (drop 4 tail) (rw (take-append-drop 4 tail) h) in
    let two : length (drop 4 tail) ≡ 2 = omega (arith, length-drop 4 tail) in
    let (id, id_fits) = reread 4 (take 4 tail) parts.0 (length-take 4 tail (omega arith)) in
    let (size', fits) = reread 2 (drop 4 tail) parts.1 two in
    let all : take 2 (drop 4 tail) ≡ drop 4 tail = take_all 2 (drop 4 tail) two in
    let value : length payload % 2 ^ 16 ≡ from_be (drop 4 tail) =
      let whole = len ∙ ap from_be all in omega (arith, whole, fits) in
    (
      rw (id, value, size')
          (sym (append_assoc (take 4 tail) (drop 4 tail) payload)
            ∙ ap (λ xs. xs ++ payload) (take-append-drop 4 tail)),
      id_fits,
      (let whole = len ∙ ap from_be all in omega (arith, whole, fits)),
    )

IsFrame-of_header :
    (header payload rest : Text)
    → IsBytes header
    → length header ≡ 7
    → length payload ≡ from_be (take 2 (drop 5 header))
    → (header ++ (payload ++ rest)
        ≡ encode_frame (get_or header 0 0) (from_be (take 4 (drop 1 header))) payload ++ rest)
      × IsFrame (record {
        cmd = get_or header 0 0;
        stream_id = from_be (take 4 (drop 1 header));
        payload = payload;
      })
unfolding encode_frame
IsFrame-of_header [] payload rest h size len = absurd (omega arith)
IsFrame-of_header (c ∷ tail) payload rest h size len =
    let (e, id_fits, fits) = encode_fields tail payload h.1 (omega arith) len in
    (
      ap (◌∷◌ c) (sym (append_assoc tail payload rest) ∙ ap (λ xs. xs ++ rest) (sym e)),
      record { cmd = h.0; stream_id = id_fits; payload = fits },
    )

abbrev frame_from : Text → Text × Text → Result WireError (Frame × Text)
frame_from header (payload, rest) = ok (
  record {
    cmd = get_or header 0 0;
    stream_id = from_be (take 4 (drop 1 header));
    payload = payload;
  },
  rest,
)

-- On a stream of bytes: what `read_frame` returns is a frame whose fields are in range, and the stream
-- was the encoding of just this frame before the rest. So no two readings of a stream are possible.
pub read_frame-inverse :
    (s : Text) (f : Frame) (rest : Text)
    → IsBytes s
    → read_frame s ≡ ok (f, rest)
    → (s ≡ encode_frame f.cmd f.stream_id f.payload ++ rest) × IsFrame f
unfolding read_frame
read_frame-inverse s f rest bytes e =
    let ((header, after), e₁, first) =
      ok-parts (λ (header, after). read_payload header after) (read_exact 7 s) e in
    let (split, seven) = read_exact-inverse 7 s header after first in
    let ((payload, rest'), e₂, second) =
      ok-parts (frame_from header) (read_exact (from_be (take 2 (drop 5 header))) after) e₁ in
    let (split', size) =
      read_exact-inverse (from_be (take 2 (drop 5 header))) after payload rest' second in
    let parts = IsBytes-parts header after (rw split at bytes) in
    let (eq, v) = IsFrame-of_header header payload rest' parts.0 seven size in
    let same : (frame_from header (payload, rest') ≡ ok (f, rest)) = e₂ in
    let frame : f ≡ record {
      cmd = get_or header 0 0;
      stream_id = from_be (take 4 (drop 1 header));
      payload = payload;
    } =
      ground (arith, same) in
    let left : rest ≡ rest' = ground (arith, same) in
    (rw (split, split', frame, left) eq, rw frame v)
