-- ===== src/Tuic.antt =====
-- src/tuic.rs: the UDP packets of TUIC and the sender, which splits them into commands that fit a
-- datagram; `Tuic.Receive` is the receiver. The bytes of a datagram or of a unidirectional stream are
-- one command.
pub mod Wire
pub mod Split
pub mod Reassembly
pub mod Delivery
pub mod Packets
pub mod Frames
pub mod Receive
mod Runs
use aerion.Base.{
  min, ℕ, zero, suc, ◌+◌, ◌-◌, ◌/◌, ◌%◌, ◌^◌, ◌≡◌, Bool, true, false, not, ◌&&◌, ◌||◌, Option, none,
  some, List, [], ◌∷◌, ◌++◌, leb, ltb, ◌==◌, if◌then◌else◌, length, take, drop, get_or, is_some,
  lookup, insert, remove, retain, contains, pair_eq, nat_eq, Result, ok, err, ◌>>=◌, map_err,
}
use aerion.Base.Text.{Text}
use aerion.Base.Bytes.{be_bytes, from_be}
use aerion.Net.{v4, v6}
use aerion.Protocol.Stream.{WireError, target_empty, unsupported_address_type}
use aerion.Protocol.Target.{
  ProxyTarget, ip, domain, encode_ip, encode_domain, decode_ip, decode_domain,
}
use aerion.Fragments.{FragmentPayload, FragmentError, new_payload, count, max_udp_payload}
use aerion.Fragments as Fragments

abbrev pub tuic_version : ℕ
tuic_version = 0x05

abbrev pub cmd_packet : ℕ
cmd_packet = 0x02

abbrev pub cmd_heartbeat : ℕ
cmd_heartbeat = 0x04

abbrev pub packet_command_fixed_len : ℕ
packet_command_fixed_len = 10

abbrev pub max_pending_packets : ℕ
max_pending_packets = 64

-- 30 seconds in nanoseconds.
abbrev pub udp_fragment_timeout : ℕ
udp_fragment_timeout = 30000000000

pub data TuicError : Type 0 where
  bad_address : WireError → TuicError
  bad_fragment : FragmentError → TuicError
  too_short bad_version not_packet zero_total bad_index payload_short trailing_bytes : TuicError
  missing_address unexpected_address header_too_long payload_too_large too_many_fragments :
      TuicError
  map_full count_changed unexpected_command : TuicError

pub record TuicPacket : Type 0 where
  pub assoc_id : ℕ
  pub target : ProxyTarget
  pub payload : Text

pub record TuicPacketCommand : Type 0 where
  pub assoc_id : ℕ
  pub packet_id : ℕ
  pub frag_total : ℕ
  pub frag_id : ℕ
  pub target : Option ProxyTarget
  pub payload : Text

pub record TuicFragmentBuffer : Type 0 where
  pub target : Option ProxyTarget
  pub created_at : ℕ
  pub fragments : FragmentPayload

abbrev pub Pending : Type 0
Pending = List ((ℕ × ℕ) × TuicFragmentBuffer)

unfoldable pub encode_tuic_address : Option ProxyTarget → Result WireError Text
unfolding encode_ip encode_domain
encode_tuic_address none = ok (0xff ∷ [])
encode_tuic_address (some (ip a)) = ok (encode_ip 0x01 0x02 a.ip a.port)
encode_tuic_address (some (domain host port)) = encode_domain 0x00 host port

abbrev pub present : ProxyTarget × Text → Result WireError (Option ProxyTarget × Text)
present (target, rest) = ok (some target, rest)

-- The address and, for the count of its bytes, what follows it.
unfoldable pub parse_tuic_address : Text → Result WireError (Option ProxyTarget × Text)
unfolding decode_ip decode_domain
parse_tuic_address [] = err target_empty
parse_tuic_address (tag ∷ body) =
    if tag == 0xff
    then ok (none, body)
    else if tag == 0x00
    then decode_domain body >>= present
    else if tag == 0x01
    then decode_ip 4 v4 body >>= present
    else if tag == 0x02
    then decode_ip 16 v6 body >>= present
    else err unsupported_address_type

unfoldable pub max_packet_payload_len : ℕ → ℕ → Result TuicError ℕ
max_packet_payload_len max_frame_len address_len =
    let header_len = packet_command_fixed_len + address_len in
    if ltb header_len max_frame_len
    then ok (min (max_frame_len - header_len) 65535)
    else err header_too_long

-- The fields before the address, in the order of the wire.
abbrev pub command_bytes : ℕ → ℕ → ℕ → ℕ → Text → Text → Text
command_bytes assoc_id packet_id frag_total frag_id payload address =
    tuic_version
    ∷ cmd_packet
    ∷ (be_bytes 2 assoc_id
        ++ (be_bytes 2 packet_id
            ++ (frag_total
                ∷ frag_id
                ∷ (be_bytes 2 (length payload % 2 ^ 16) ++ (address ++ payload)))))

unfoldable pub encode_packet_command :
    ℕ → ℕ → ℕ → ℕ → Option ProxyTarget → Text → Result TuicError Text
unfolding encode_tuic_address
encode_packet_command assoc_id packet_id frag_total frag_id target payload =
    if leb (length payload) 65535
    then (do
      address ← map_err bad_address (encode_tuic_address target)
      ok (command_bytes assoc_id packet_id frag_total frag_id payload address))
    else err payload_too_large

-- The loop over the fragments after the first: how many are left, the index of the next, and the
-- payload from its offset on.
unfoldable pub encode_rest : ℕ → ℕ → ℕ → ℕ → ℕ → ℕ → Text → Result TuicError (List Text)
encode_rest assoc_id packet_id total capacity zero frag_id payload = ok []
encode_rest assoc_id packet_id total capacity (suc left) frag_id payload = do
  let size = min capacity (length payload)
  frame ←
      encode_packet_command assoc_id packet_id (total % 2 ^ 8) (frag_id % 2 ^ 8) none
        (take size payload)
  frames ← encode_rest assoc_id packet_id total capacity left (suc frag_id) (drop size payload)
  ok (frame ∷ frames)

-- The branch of `encode_packet_fragments` with more than one fragment.
unfoldable pub encode_split : ℕ → ℕ → ProxyTarget → Text → ℕ → ℕ → Result TuicError (List Text)
encode_split assoc_id packet_id target payload first_capacity next_capacity = do
  let rest = length payload - first_capacity
  let total = 1 + (rest + next_capacity - 1) / next_capacity
  (if leb total 255
      then (do
        frame ←
            encode_packet_command assoc_id packet_id (total % 2 ^ 8) 0 (some target)
              (take first_capacity payload)
        frames ←
            encode_rest assoc_id packet_id total next_capacity (total - 1) 1
              (drop first_capacity payload)
        ok (frame ∷ frames))
      else err too_many_fragments)

unfoldable pub encode_packet_fragments :
    ℕ → ℕ → ProxyTarget → Text → ℕ → Result TuicError (List Text)
encode_packet_fragments assoc_id packet_id target payload max_frame_len = do
  address ← map_err bad_address (encode_tuic_address (some target))
  none_address ← map_err bad_address (encode_tuic_address none)
  first_capacity ← max_packet_payload_len max_frame_len (length address)
  (if leb (length payload) first_capacity
      then (do
        frame ← encode_packet_command assoc_id packet_id 1 0 (some target) payload
        ok (frame ∷ []))
      else (do
        next_capacity ← max_packet_payload_len max_frame_len (length none_address)
        encode_split assoc_id packet_id target payload first_capacity next_capacity))
