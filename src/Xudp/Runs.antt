-- ===== src/Xudp/Runs.antt =====
-- A packet to a host, first and later in its session.
use aerion.Base.{
  ◌≡◌, List, Result, err, false, refl, true, none, some, [], ◌∷◌, arith, replicate, ok,
}
use aerion.Base.Text.{Text, ascii, is_utf8}
use aerion.Protocol.Target.{ProxyTarget, domain, unscoped}
use aerion.Xudp.{
  encode_client_packet, decode_packet_chunk, encode_packet_parts, write_destination_xudp, XudpError,
  no_destination,
}
use aerion.Xudp.Packets.{decode_packet_chunk-encode_client_packet}
use aerion.Xudp.Sessions.{
  SessionFrame, addressed, bare, encode_frames, decode_chunks, meanings,
  decode_chunks-encode_frames,
}
use aerion.Base.Bytes.{be_bytes}

abbrev host_target : ProxyTarget
host_target = domain (ascii "a.b") 53

decode_packet_chunk-encode_client_packet_example :
    (chunk : Text) × (encode_client_packet host_target (ascii "hello") true (replicate 8 9)
      ≡ ok chunk)
    × (decode_packet_chunk chunk none ≡ (some host_target, ok (some (host_target, ascii "hello"))))
unfolding is_utf8 unscoped
decode_packet_chunk-encode_client_packet_example =
    decode_packet_chunk-encode_client_packet host_target (ascii "hello") (replicate 8 9) true none
      (refl, omega arith, omega arith) (omega arith) refl

abbrev other_host : ProxyTarget
other_host = domain (ascii "c.d") 80

-- A bare frame before any destination, and frames to two hosts with bare ones between them.
abbrev five_frames : List SessionFrame
five_frames =
    bare 0 0 1 (ascii "lost")
    ∷ addressed host_target true (replicate 8 9) (ascii "one")
    ∷ bare 0 0 1 (ascii "two")
    ∷ bare 0 0 1 (ascii "three")
    ∷ addressed other_host false (replicate 8 9) (ascii "four")
    ∷ []

abbrev or_nothing : Result XudpError (List Text) → List Text
or_nothing (ok chunks) = chunks
or_nothing (err e) = []

five_chunks : List Text
five_chunks = or_nothing (encode_frames five_frames)

five_frames_encoded : encode_frames five_frames ≡ ok five_chunks
unfolding five_chunks encode_frames encode_client_packet encode_packet_parts write_destination_xudp
    be_bytes
five_frames_encoded = refl

decode_chunks-encode_frames_example :
    decode_chunks none five_chunks
    ≡ err no_destination
      ∷ ok (some (host_target, ascii "one"))
      ∷ ok (some (host_target, ascii "two"))
      ∷ ok (some (host_target, ascii "three"))
      ∷ ok (some (other_host, ascii "four"))
      ∷ []
unfolding meanings unscoped is_utf8
decode_chunks-encode_frames_example =
    decode_chunks-encode_frames five_frames five_chunks
      (
        omega arith,
        (
          ((refl, omega arith, omega arith), omega arith, refl),
          (omega arith, (omega arith, (((refl, omega arith, omega arith), omega arith, refl), tt))),
        ),
      )
      five_frames_encoded
