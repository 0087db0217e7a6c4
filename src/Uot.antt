-- ===== src/Uot.antt =====
-- src/uot.rs: UDP packets carried over a stream (UDP over TCP, version 2), and the SOCKS5 UDP packet.
pub mod Packets
pub mod Streams
pub mod Chunks
pub mod Sequence
mod Runs
use aerion.Base.{
  ℕ, zero, suc, ◌+◌, ◌%◌, ◌^◌, ◌≡◌, refl, Bool, true, false, not, ◌&&◌, ◌||◌, Option, none, some,
  List, [], ◌∷◌, ◌++◌, leb, ltb, ◌==◌, if◌then◌else◌, length, take, drop, is_empty, Result, ok, err,
  ◌>>=◌, ensure, ◌>>◌, ok_or,
}
use aerion.Base.Text.{Text, ascii, eq_ignore_ascii_case}
use aerion.Base.Bytes.{be_bytes, from_be}
use aerion.Net.{v4, v6, new_socket_addr}
use aerion.Protocol.Stream.{
  WireError, target_empty, target_too_short, unsupported_address_type, empty_packet, trailing_bytes,
  incomplete, payload_too_large, bad_reserved, fragmented,
}
use aerion.Protocol.Target.{
  ProxyTarget, ip, domain, encode_ip, encode_domain, decode_ip, decode_domain, encode_target,
  decode_target,
}

pub record UotRequest : Type 0 where
  pub is_connect : Bool
  pub destination : ProxyTarget

abbrev pub magic_address : Text
magic_address = ascii "sp.v2.udp-over-tcp.arpa"

abbrev pub legacy_magic_address : Text
legacy_magic_address = ascii "sp.udp-over-tcp.arpa"

unfoldable pub is_magic_target : ProxyTarget → Bool
is_magic_target (domain host port) =
    eq_ignore_ascii_case host magic_address || eq_ignore_ascii_case host legacy_magic_address
is_magic_target (ip a) = false

unfoldable pub is_legacy_magic_target : ProxyTarget → Bool
is_legacy_magic_target (domain host port) = eq_ignore_ascii_case host legacy_magic_address
is_legacy_magic_target (ip a) = false

abbrev pub magic_target : ProxyTarget
magic_target = domain magic_address 0

abbrev pub unspecified : ProxyTarget
unspecified = ip (new_socket_addr (v4 0) 0)

abbrev pub legacy_associate_request : UotRequest
legacy_associate_request = record { is_connect = false; destination = unspecified }

unfoldable pub encode_v2_associate_request : Result WireError Text
unfolding encode_target
encode_v2_associate_request = do address ← encode_target unspecified; ok (0 ∷ address)

unfoldable pub decode_v2_request : Text → Result WireError UotRequest
unfolding decode_target
decode_v2_request [] = err empty_packet
decode_v2_request (flag ∷ address) = do
  decoded ← decode_target address
  if is_empty (decoded.1)
      then ok (record { is_connect = not (flag == 0); destination = decoded.0 })
      else err trailing_bytes

-- The length of a version 2 request, when enough of it is there to tell.
unfoldable pub v2_request_len : Text → Result WireError (Option ℕ)
v2_request_len [] = ok none
v2_request_len (flag ∷ []) = ok none
v2_request_len (flag ∷ tag ∷ body) =
    if tag == 0x01
    then ok (some 8)
    else if tag == 0x04
    then ok (some 20)
    else if tag == 0x03
    then elim body [ [] ↦ ok none | n ∷ _ ↦ ok (some (n + 5)) ]
    else err unsupported_address_type

unfoldable pub v2_request_complete : Text → Result WireError Bool
unfolding v2_request_len
v2_request_complete payload = do
  length? ← v2_request_len payload
  ok (elim length? [ none ↦ false | some n ↦ leb n (length payload) ])

unfoldable pub decode_request_for_target : ProxyTarget → Text → Result WireError (UotRequest × Text)
unfolding is_legacy_magic_target v2_request_len decode_v2_request
decode_request_for_target target payload =
    if is_legacy_magic_target target then ok (legacy_associate_request, payload) else (do
      length? ← v2_request_len payload
      n ← ok_or length? incomplete
      first ← (if leb n (length payload) then ok (take n payload) else err incomplete)
      request ← decode_v2_request first
      ok (request, drop n payload))

-- Decode the first `n` pending bytes once they are there, and take them away.
abbrev pub take_decoded {ℓ} :
    {A : Type ℓ}
    → (Text → Result WireError A)
    → Text
    → Option ℕ
    → Result WireError (Option A × Text)
take_decoded decode pending none = ok (none, pending)
take_decoded decode pending (some n) =
    if ltb (length pending) n
    then ok (none, pending)
    else (do value ← decode (take n pending); ok (some value, drop n pending))

unfoldable pub take_v2_request : Text → Result WireError (Option UotRequest × Text)
unfolding v2_request_len decode_v2_request
take_v2_request pending = v2_request_len pending >>= take_decoded decode_v2_request pending

unfoldable pub write_uot_address : ProxyTarget → Result WireError Text
unfolding encode_ip encode_domain
write_uot_address (ip a) = ok (encode_ip 0x00 0x01 a.ip a.port)
write_uot_address (domain host port) = encode_domain 0x02 host port

unfoldable pub read_uot_address : Text → Result WireError (ProxyTarget × Text)
unfolding decode_ip decode_domain
read_uot_address [] = err target_empty
read_uot_address (tag ∷ body) =
    if tag == 0x00
    then decode_ip 4 v4 body
    else if tag == 0x01
    then decode_ip 16 v6 body
    else if tag == 0x02
    then decode_domain body
    else err unsupported_address_type

unfoldable pub encode_connect_packet : Text → Result WireError Text
encode_connect_packet payload =
    if leb (length payload) 65535
    then ok (be_bytes 2 (length payload % 2 ^ 16) ++ payload)
    else err payload_too_large

-- The payload after its length, with nothing behind it.
unfoldable pub decode_connect_packet : Text → Result WireError Text
decode_connect_packet packet =
    if leb 2 (length packet)
    then (if leb (2 + from_be (take 2 packet)) (length packet)
        then (if length packet == 2 + from_be (take 2 packet)
            then ok (drop 2 packet)
            else err trailing_bytes)
        else err incomplete)
    else err incomplete

unfoldable pub encode_associate_packet : ProxyTarget → Text → Result WireError Text
unfolding write_uot_address
encode_associate_packet destination payload =
    if leb (length payload) 65535
    then (do
      address ← write_uot_address destination
      ok (address ++ (be_bytes 2 (length payload % 2 ^ 16) ++ payload)))
    else err payload_too_large

-- The part after the address is checked like a connected packet.
unfoldable pub decode_associate_packet : Text → Result WireError (ProxyTarget × Text)
unfolding read_uot_address decode_connect_packet
decode_associate_packet packet = do
  decoded ← read_uot_address packet
  payload ← decode_connect_packet (decoded.1)
  ok (decoded.0, payload)

unfoldable pub connect_packet_len : Text → Result WireError (Option ℕ)
connect_packet_len packet =
    if ltb (length packet) 2 then ok none else ok (some (2 + from_be (take 2 packet)))

-- Where the payload length stands, when enough of the address is there to tell.
unfoldable pub payload_len_offset : Text → Result WireError (Option ℕ)
payload_len_offset [] = ok none
payload_len_offset (tag ∷ body) =
    if tag == 0x00
    then (if ltb (length body) 6 then ok none else ok (some 7))
    else if tag == 0x01
    then (if ltb (length body) 18 then ok none else ok (some 19))
    else if tag == 0x02
    then elim body [
      | [] ↦ ok none
      | n ∷ rest ↦ if ltb (length rest) (n + 2) then ok none else ok (some (n + 4))
    ]
    else err unsupported_address_type

abbrev pub len_at : Text → Option ℕ → Result WireError (Option ℕ)
len_at packet none = ok none
len_at packet (some k) =
    if ltb (length packet) (k + 2)
    then ok none
    else ok (some (k + 2 + from_be (take 2 (drop k packet))))

unfoldable pub associate_packet_len : Text → Result WireError (Option ℕ)
unfolding payload_len_offset
associate_packet_len packet = payload_len_offset packet >>= len_at packet

-- A packet of the stream: where it goes, its payload, and whether the destination is the request's.
abbrev pub StreamPacket : Type 0
StreamPacket = ProxyTarget × Text × Bool

abbrev pub connect_packet : UotRequest → Text → Result WireError StreamPacket
connect_packet request packet = do
  payload ← decode_connect_packet packet
  ok (request.destination, payload, true)

abbrev pub associate_packet : Text → Result WireError StreamPacket
associate_packet packet = do
  decoded ← decode_associate_packet packet
  ok (decoded.0, decoded.1, false)

unfoldable pub take_stream_packet :
    UotRequest → Text → Result WireError (Option StreamPacket × Text)
unfolding connect_packet_len associate_packet_len
take_stream_packet request pending =
    if request.is_connect
    then connect_packet_len pending >>= take_decoded (connect_packet request) pending
    else associate_packet_len pending >>= take_decoded associate_packet pending

unfoldable pub parse_socks_udp_packet : Text → Result WireError (ProxyTarget × Text)
unfolding decode_target
parse_socks_udp_packet (a ∷ b ∷ c ∷ d ∷ rest) =
    if a == 0 && b == 0
    then (if c == 0 then decode_target (d ∷ rest) else err fragmented)
    else err bad_reserved
parse_socks_udp_packet _ = err incomplete

unfoldable pub encode_socks_udp_packet : ProxyTarget → Text → Result WireError Text
unfolding encode_target
encode_socks_udp_packet source payload = do
  address ← encode_target source
  ok (0 ∷ 0 ∷ 0 ∷ (address ++ payload))
