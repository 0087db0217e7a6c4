-- ===== src/Tuic/Runs.antt =====
-- A packet of two fragments that arrive in the other order, with a heartbeat between them.
use aerion.Base.{
  true, ◌≡◌, refl, none, some, List, [], ◌∷◌, ◌<◌, ◌≤◌, arith, length, replicate, All, ok,
}
use aerion.Base.Text.{Text}
use aerion.Base.Bytes.{be_bytes}
use aerion.Net.{v4, new_socket_addr}
use aerion.Protocol.Target.{ProxyTarget, ip, unscoped}
use aerion.Tuic.{
  command_bytes, encode_packet_fragments, encode_split, encode_rest, encode_packet_command,
  encode_tuic_address, max_packet_payload_len,
}
use aerion.Tuic.Receive.{parse_packet_command}
use aerion.Tuic.Delivery.{own, other, deliver}
use aerion.Tuic.Packets.{deliver-encode_packet_fragments, encode_packet_fragments_bounds}

abbrev resolver : ProxyTarget
resolver = ip (new_socket_addr (v4 0x7f000001) 53)

abbrev question : Text
question = replicate 500 b'x'

abbrev two_frames : List Text
two_frames =
    command_bytes 1 7 2 0 (replicate 253 b'x') (0x01 ∷ 127 ∷ 0 ∷ 0 ∷ 1 ∷ 0 ∷ 53 ∷ [])
    ∷ command_bytes 1 7 2 1 (replicate 247 b'x') (0xff ∷ [])
    ∷ []

encoded_test : encode_packet_fragments 1 7 resolver question 270 ≡ ok two_frames
unfolding encode_packet_fragments encode_split encode_rest encode_packet_command encode_tuic_address
    max_packet_payload_len be_bytes
encoded_test = refl

deliver-encode_packet_fragments_example :
    deliver ((1, true) ∷ []) two_frames [] ((5, own 1) ∷ (6, other (5 ∷ 4 ∷ [])) ∷ (7, own 0) ∷ [])
    ≡ ok none ∷ ok (some (record { assoc_id = 1; target = resolver; payload = question })) ∷ []
unfolding parse_packet_command unscoped
deliver-encode_packet_fragments_example =
    deliver-encode_packet_fragments ((1, true) ∷ []) 1 7 270 resolver question two_frames 5 1 []
      ((6, other (5 ∷ 4 ∷ [])) ∷ (7, own 0) ∷ []) (omega arith) (omega arith)
      (omega arith, omega arith) (omega arith) (omega arith) encoded_test refl refl (omega arith)
      ((refl, refl, (refl, refl, tt)), refl) ((omega arith, λ p h. cc), (omega arith, tt))

encode_packet_fragments_bounds_example :
    (frames : List Text) × (encode_packet_fragments 1 7 resolver question 270 ≡ ok frames)
    × (0 < length frames)
    × (length frames ≤ 255)
    × All (λ frame. length frame ≤ 270) frames
encode_packet_fragments_bounds_example =
    encode_packet_fragments_bounds 1 7 270 resolver question (omega arith) (omega arith)
      (omega arith, omega arith) (omega arith) (omega arith)
