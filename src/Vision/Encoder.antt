-- ===== src/Vision/Encoder.antt =====
-- `VisionEncoder` and the frames it writes. What `getrandom` gives for the length and the bytes of the
-- padding, or that it fails, is an argument.
use aerion.Base.{
  min, ℕ, ◌+◌, ◌-◌, ◌%◌, ◌^◌, Bool, true, false, not, ◌&&◌, [], ◌∷◌, ◌++◌, leb, ltb, ◌==◌,
  if◌then◌else◌, length, take, drop, get_or, Result, ok, err, ◌>>=◌, ok_or, Option,
}
use aerion.Base.Text.{Text}
use aerion.Base.Bytes.{be_bytes, from_be}
use aerion.Vision.{VisionControl, VisionError, payload_too_large, random_failed}
use aerion.Vision.Probe.{observe}

pub record VisionEncoder : Type 0 where
  pub user : Text
  pub uuid_written : Bool
  pub direct : Bool
  pub ended : Bool
  pub blocks : ℕ
  pub control : VisionControl

abbrev pub new_encoder : Text → VisionControl → VisionEncoder
new_encoder user control = record {
  user = user;
  uuid_written = false;
  direct = false;
  ended = false;
  blocks = 0;
  control = control;
}

-- What `getrandom` gives: two bytes as a number, and as many bytes as are asked for, where it does not
-- fail.
pub record Random : Type 0 where
  pub number : Option ℕ
  pub fill : ℕ → Option Text

-- The padding of a content of the given length, for a random 16-bit number.
unfoldable pub padding_for : ℕ → ℕ → ℕ
padding_for content_len random =
    let padding =
      if ltb content_len 900
      then 900 + random % 500 - content_len
      else if leb (random % 256) 1
      then 1
      else random % 256 in
    min padding 65535

unfoldable pub vision_padding_len : Random → ℕ → Result VisionError ℕ
unfolding padding_for
vision_padding_len random content_len = do
  number ← ok_or random.number random_failed
  ok (padding_for content_len number)

-- A block: the user before the first one, the header, the payload and the padding.
abbrev pub block_bytes : ℕ → Text → Text → Text
block_bytes command payload padding =
    command
    ∷ (be_bytes 2 (length payload % 2 ^ 16)
        ++ (be_bytes 2 (length padding % 2 ^ 16) ++ (payload ++ padding)))

unfoldable pub encode_vision_frame : Random → Text → Bool → ℕ → Text → Result VisionError Text
unfolding vision_padding_len
encode_vision_frame random user write_uuid command payload =
    if ltb 65535 (length payload) then err payload_too_large else (do
      padding_len ← vision_padding_len random (length payload)
      padding ← ok_or (random.fill padding_len) random_failed
      ok ((if write_uuid then user else []) ++ block_bytes command payload padding))

unfoldable pub looks_like_tls13_application_data : Text → Bool
looks_like_tls13_application_data payload =
    leb 5 (length payload)
    && ((get_or payload 0 0 == 0x17) && (from_be (take 2 (drop 1 payload)) == 0x0303))

-- `VisionEncoder::encode`
unfoldable pub encode : Random → VisionEncoder → Text → VisionEncoder × Result VisionError Text
unfolding observe encode_vision_frame looks_like_tls13_application_data
encode random e payload =
    let filter = observe payload false e.control.filter in
    let blocks = if leb 255 e.blocks then 255 else e.blocks + 1 in
    let next : VisionEncoder = record e {
      control = record (e.control) { filter = filter };
      blocks = blocks;
      uuid_written = true;
    } in
    let write_uuid = not e.uuid_written in
    if e.ended
    then (e, ok payload)
    else if filter.tls && looks_like_tls13_application_data payload
    then (
      record next { ended = true; direct = filter.direct },
      encode_vision_frame random e.user write_uuid (if filter.direct then 2 else 1) payload,
    )
    else if not filter.tls && leb 8 blocks
    then (record next { ended = true }, encode_vision_frame random e.user write_uuid 1 payload)
    else (next, encode_vision_frame random e.user write_uuid 0 payload)
