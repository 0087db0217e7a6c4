-- ===== src/Xudp/Sessions.antt =====
-- The frames of a session, decoded one after the other with the destination that is remembered.
use aerion.Base.{
  ℕ, ◌≤◌, ◌≡◌, refl, ap, ◌∙◌, sym, Bool, Option, none, some, List, [], ◌∷◌, arith, All, length,
  Result, ok, err, ok_injective, ◌>>=◌, Option-cases, inl, inr,
}
use aerion.Base.Text.{Text}
use aerion.Protocol.Target.{ProxyTarget, IsTarget, unscoped}
use aerion.Xudp.{
  XudpError, no_destination, encode_client_packet, encode_packet_parts, decode_packet_parts,
  decode_packet_chunk, status_keep, status_end,
}
use aerion.Xudp.Packets.{chunk_parts, decode_packet_chunk-encode_client_packet}

-- A frame with a destination, one without (with any session id and option), and the end of a session.
pub data SessionFrame : Type 0 where
  addressed : ProxyTarget → Bool → Text → Text → SessionFrame
  bare : ℕ → ℕ → ℕ → Text → SessionFrame
  ended : ℕ → ℕ → ℕ → Text → SessionFrame

abbrev pub IsFrame : SessionFrame → Type 0
IsFrame (addressed target is_new global_id payload) =
    IsTarget target × (length payload ≤ 65535) × (length global_id ≡ 8)
IsFrame (bare high low option payload) = length payload ≤ 65535
IsFrame (ended high low option payload) = length payload ≤ 65535

unfoldable pub encode_session_frame : SessionFrame → Result XudpError Text
encode_session_frame (addressed target is_new global_id payload) =
    encode_client_packet target payload is_new global_id
encode_session_frame (bare high low option payload) =
    encode_packet_parts (high ∷ low ∷ status_keep ∷ option ∷ []) payload
encode_session_frame (ended high low option payload) =
    encode_packet_parts (high ∷ low ∷ status_end ∷ option ∷ []) payload

unfoldable pub encode_frames : List SessionFrame → Result XudpError (List Text)
unfolding encode_session_frame
encode_frames [] = ok []
encode_frames (f ∷ fs) = do
  chunk ← encode_session_frame f
  chunks ← encode_frames fs
  ok (chunk ∷ chunks)

-- The receiver: the destination that one chunk leaves is the one for the next.
unfoldable pub decode_chunks :
    Option ProxyTarget → List Text → List (Result XudpError (Option (ProxyTarget × Text)))
decode_chunks current [] = []
decode_chunks current (chunk ∷ chunks) =
    let (next, answer) = decode_packet_chunk chunk current in answer ∷ decode_chunks next chunks

-- The target of the last addressed frame, the frames with the newest first.
unfoldable pub latest : List SessionFrame → Option ProxyTarget
latest [] = none
latest (addressed target is_new global_id payload ∷ before) = some (unscoped target)
latest (bare high low option payload ∷ before) = latest before
latest (ended high low option payload ∷ before) = latest before

-- What a frame means after the frames before it.
unfoldable pub meaning :
    List SessionFrame → SessionFrame → Result XudpError (Option (ProxyTarget × Text))
unfolding latest
meaning before (addressed target is_new global_id payload) = ok (some (unscoped target, payload))
meaning before (bare high low option payload) = elim (latest before) [
  | none ↦ err no_destination
  | some target ↦ ok (some (target, payload))
]
meaning before (ended high low option payload) = ok none

unfoldable pub meanings :
    List SessionFrame → List SessionFrame → List (Result XudpError (Option (ProxyTarget × Text)))
unfolding meaning
meanings before [] = []
meanings before (f ∷ fs) = meaning before f ∷ meanings (f ∷ before) fs

-- One frame.
record IsDecoded (before : List SessionFrame) (f : SessionFrame) : Type 0 where
  chunk : Text
  encoded : encode_session_frame f ≡ ok chunk
  decoded : decode_packet_chunk chunk (latest before) ≡ (latest (f ∷ before), meaning before f)

bare_read :
    (high low option : ℕ) (payload : Text) (before : List SessionFrame)
    → decode_packet_parts (high ∷ low ∷ status_keep ∷ option ∷ []) payload (latest before)
      ≡ (latest before, meaning before (bare high low option payload))
unfolding decode_packet_parts meaning
bare_read high low option payload before = elim (Option-cases (latest before)) [
  | inl e ↦ rw (e, meaning) refl
  | inr (t, e) ↦ rw (e, meaning) refl
]

frame-IsDecoded : (before : List SessionFrame) (f : SessionFrame) → IsFrame f → IsDecoded before f
unfolding encode_session_frame latest meaning
frame-IsDecoded before (addressed target is_new global_id payload) (valid, fits, size) =
    let (chunk, encoded, decoded) =
      decode_packet_chunk-encode_client_packet target payload global_id is_new (latest before) valid
        fits size in
    record { chunk = chunk; encoded = encoded; decoded = decoded }
frame-IsDecoded before (bare high low option payload) fits =
    let (chunk, encoded, decoded) =
      chunk_parts (high ∷ low ∷ status_keep ∷ option ∷ []) payload (latest before) (omega arith)
        (omega arith) fits in
    record {
      chunk = chunk;
      encoded = encoded;
      decoded = decoded ∙ bare_read high low option payload before;
    }
frame-IsDecoded before (ended high low option payload) fits =
    let (chunk, encoded, decoded) =
      chunk_parts (high ∷ low ∷ status_end ∷ option ∷ []) payload (latest before) (omega arith)
        (omega arith) fits in
    record {
      chunk = chunk;
      encoded = encoded;
      decoded = decoded ∙ (unfold decode_packet_parts in refl);
    }

-- The frames, encoded, and their chunks decoded.
record AreDecoded (before fs : List SessionFrame) : Type 0 where
  chunks : List Text
  all_encoded : encode_frames fs ≡ ok chunks
  all_decoded : decode_chunks (latest before) chunks ≡ meanings before fs

frames-AreDecoded : (before fs : List SessionFrame) → All IsFrame fs → AreDecoded before fs
unfolding encode_frames decode_chunks meanings
frames-AreDecoded before [] valid = record { chunks = []; all_encoded = refl; all_decoded = refl }
frames-AreDecoded before (f ∷ fs) (h, valid) =
    let d = frame-IsDecoded before f h in
    let rest = frames-AreDecoded (f ∷ before) fs valid in
    record {
      chunks = d.chunk ∷ rest.chunks;
      all_encoded = rw (d.encoded, rest.all_encoded) refl;
      all_decoded = rw d.decoded (ap (◌∷◌ (meaning before f)) rest.all_decoded);
    }

-- A receiver that remembers no destination decodes the chunks of any sequence of frames, with payloads of
-- at most 65535 bytes, targets that the Rust type can hold, hosts of at most 255 bytes and global ids of 8
-- bytes. A frame with a destination gives that destination (an IPv6 one with flow information and scope 0,
-- which are not sent) and its payload. A frame without one gives its payload with the destination of the
-- last frame before it that had one, however many stand between, and an error where none had. The end of
-- a session gives nothing.
pub decode_chunks-encode_frames :
    (fs : List SessionFrame) (chunks : List Text)
    → All IsFrame fs
    → encode_frames fs ≡ ok chunks
    → decode_chunks none chunks ≡ meanings [] fs
unfolding latest
decode_chunks-encode_frames fs chunks valid encoded =
    let a = frames-AreDecoded [] fs valid in
    let same : a.chunks ≡ chunks = ok_injective (sym a.all_encoded ∙ encoded) in
    rw (← same) a.all_decoded
