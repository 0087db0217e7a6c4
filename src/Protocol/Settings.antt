-- ===== src/Protocol/Settings.antt =====
-- The default padding scheme, the settings that a client announces, and the plain frame writers.
use aerion.Base.{
  ℕ, ◌%◌, ◌^◌, ◌≡◌, refl, ap, Option, none, some, List, [], ◌∷◌, ◌++◌, append_assoc, leb, ltb,
  if◌then◌else◌, length, Result, ok, ◌>>=◌,
}
use aerion.Base.Text.{Text, ascii}
use aerion.Base.Bytes.{be_bytes}
use aerion.Padding.{PaddingScheme, PaddingError, from_text, trimmed_lines, join}
use aerion.Net.{SocketAddr}
use aerion.Protocol.Stream.{WireError}
use aerion.Protocol.Frame.{encode_frame, write_frame, max_frame_payload_len}
use aerion.Protocol.Padded.{PaddedFrameWriter, write_padded_frame, chunks}
use aerion.Protocol.Target.{ProxyTarget, ip, domain}

abbrev pub default_lines : List Text
default_lines =
    ascii "stop=8"
    ∷ ascii "0=30-30"
    ∷ ascii "1=100-400"
    ∷ ascii "2=400-500,c,500-1000,c,500-1000,c,500-1000,c,500-1000"
    ∷ ascii "3=9-9,500-1000"
    ∷ ascii "4=500-1000"
    ∷ ascii "5=500-1000"
    ∷ ascii "6=500-1000"
    ∷ ascii "7=500-1000"
    ∷ []

unfoldable pub from_lines : (Text → Text) → List Text → Result PaddingError PaddingScheme
unfolding from_text trimmed_lines join
from_lines md5_hex lines = from_text md5_hex (join (trimmed_lines lines))

-- `PaddingScheme::default`, before its `expect`
unfoldable pub default_scheme : (Text → Text) → Result PaddingError PaddingScheme
unfolding from_lines
default_scheme md5_hex = from_lines md5_hex default_lines

unfoldable pub raw_text : PaddingScheme → Text
unfolding join
raw_text s = join s.raw

abbrev pub cmd_settings : ℕ
cmd_settings = 4

-- `PaddedFrameWriter::write_client_settings`
unfoldable pub write_client_settings :
    (ℕ → ℕ → ℕ) → PaddedFrameWriter → Result WireError (PaddedFrameWriter × Text)
unfolding write_padded_frame
write_client_settings random w = write_padded_frame random w (record {
  cmd = cmd_settings;
  stream_id = 0;
  payload = ascii "v=2\nclient=aerion/0.1.0\npadding-md5=" ++ w.padding.md5;
})

-- The free function of the same name.
unfoldable pub write_plain_settings : Result WireError Text
unfolding write_frame
write_plain_settings = write_frame cmd_settings 0 (ascii "v=2\nclient=aerion/0.1.0")

-- `write_vectored_frame_bytes`: the header and the payload as two parts of one write.
unfoldable pub write_vectored_frame_bytes : ℕ → ℕ → Text → Text
write_vectored_frame_bytes cmd stream_id payload =
    let header : Text = cmd ∷ (be_bytes 4 stream_id ++ be_bytes 2 (length payload % 2 ^ 16)) in
    header ++ payload

-- The vectored write puts the same bytes on the wire as the frame in one buffer.
pub write_vectored_frame_bytes-encode_frame :
    (cmd stream_id : ℕ) (payload : Text)
    → write_vectored_frame_bytes cmd stream_id payload ≡ encode_frame cmd stream_id payload
unfolding write_vectored_frame_bytes encode_frame
write_vectored_frame_bytes-encode_frame cmd stream_id payload =
    ap (◌∷◌ cmd)
      (append_assoc (be_bytes 4 stream_id) (be_bytes 2 (length payload % 2 ^ 16)) payload)

unfoldable pub write_each : ℕ → List Text → Result WireError Text
unfolding write_frame
write_each stream_id [] = ok []
write_each stream_id (c ∷ cs) = do
  first ← write_frame 2 stream_id c
  later ← write_each stream_id cs
  ok (first ++ later)

-- The free function `write_payload_chunks`
unfoldable pub write_plain_chunks : ℕ → Text → Result WireError Text
unfolding write_each chunks
write_plain_chunks stream_id payload =
    write_each stream_id (chunks (length payload) max_frame_payload_len payload)

-- `resolve_target_addr` with the name lookup as an argument; `none` for its two errors.
unfoldable pub resolve_target_addr :
    (Text → ℕ → Option (List SocketAddr)) → ProxyTarget → Option SocketAddr
resolve_target_addr lookup_host (ip a) = some a
resolve_target_addr lookup_host (domain host port) = elim (lookup_host host port) [
  | none ↦ none
  | some [] ↦ none
  | some (a ∷ _) ↦ some a
]

-- `parse_uuid`, with the hex decoder as an argument.
unfoldable pub without_dashes : Text → Text
without_dashes [] = []
without_dashes (c ∷ s) =
    let rest = without_dashes s in
    if ltb c b'-' then c ∷ rest else if ltb b'-' c then c ∷ rest else rest

unfoldable pub parse_uuid : (Text → Option Text) → Text → Option Text
unfolding without_dashes
parse_uuid decode_hex value =
    let normalized = without_dashes value in
    if leb 32 (length normalized)
    then (if leb (length normalized) 32 then decode_hex normalized else none)
    else none

abbrev raw_of : PaddingScheme → Result PaddingError Text
raw_of s = ok (raw_text s)

default_raw : (md5 : Text → Text) → default_scheme md5 >>= raw_of ≡ ok (join default_lines)
unfolding default_scheme raw_text
default_raw md5 = refl
