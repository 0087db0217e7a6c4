-- ===== src/Xudp.antt =====
-- src/vless_xudp.rs: UDP packets in XUDP frames, and the destination that a receiver remembers.
pub mod Packets
pub mod Sessions
mod Runs
use aerion.Base.{
  ℕ, ◌+◌, ◌-◌, ◌%◌, ◌^◌, Bool, true, false, not, ◌&&◌, ◌||◌, Option, none, some, List, [], ◌∷◌,
  ◌++◌, leb, ltb, ◌==◌, if◌then◌else◌, is_empty, length, take, drop, get_or, Result, ok, err, ◌>>=◌,
}
use aerion.Base.Text.{Text, is_utf8, ascii, eq_ignore_ascii_case}
use aerion.Base.Bytes.{be_bytes, from_be}
use aerion.Net.{IpAddr, v4, v6, new_socket_addr}
use aerion.Protocol.Target.{ProxyTarget, ip, domain}

abbrev pub status_new : ℕ
status_new = 0x01

abbrev pub status_keep : ℕ
status_keep = 0x02

abbrev pub status_end : ℕ
status_end = 0x03

abbrev pub network_udp : ℕ
network_udp = 0x02

pub data XudpError : Type 0 where
  domain_too_long missing_destination short_destination invalid_utf8 unsupported_address_type :
      XudpError
  metadata_too_large payload_too_large short_chunk short_metadata truncated trailing_bytes :
      XudpError
  unsupported_status unsupported_network bad_tail no_destination : XudpError

abbrev pub mux_destination : Text
mux_destination = ascii "v1.mux.cool"

abbrev pub mux_target : ProxyTarget
mux_target = domain mux_destination 666

unfoldable pub is_mux_target : ProxyTarget → Bool
is_mux_target (ip a) = false
is_mux_target (domain host port) = eq_ignore_ascii_case host mux_destination && (port == 666)

unfoldable pub destination_address : IpAddr → Text
destination_address (v4 n) = 0x01 ∷ be_bytes 4 n
destination_address (v6 n) = 0x03 ∷ be_bytes 16 n

-- The bytes that `write_destination_xudp` appends.
unfoldable pub write_destination_xudp : ProxyTarget → Result XudpError Text
unfolding destination_address
write_destination_xudp (ip a) = ok (be_bytes 2 a.port ++ destination_address a.ip)
write_destination_xudp (domain host port) =
    if leb (length host) 255
    then ok (be_bytes 2 port ++ (0x02 ∷ length host ∷ host))
    else err domain_too_long

unfoldable pub parse_address : ℕ → (ℕ → IpAddr) → ℕ → Text → Result XudpError (ProxyTarget × Text)
parse_address n version port body =
    if leb n (length body)
    then ok (ip (new_socket_addr (version (from_be (take n body))) port), drop n body)
    else err short_destination

unfoldable pub parse_host : ℕ → Text → Result XudpError (ProxyTarget × Text)
parse_host port [] = err short_destination
parse_host port (n ∷ body) =
    if leb n (length body)
    then (if is_utf8 (take n body)
        then ok (domain (take n body) port, drop n body)
        else err invalid_utf8)
    else err short_destination

-- The destination and, for the count of its bytes, what follows it.
unfoldable pub parse_destination_xudp : Text → Result XudpError (ProxyTarget × Text)
parse_destination_xudp bytes =
    let port = from_be (take 2 bytes) in
    let kind = get_or bytes 2 0 in
    let body = drop 3 bytes in
    if ltb (length bytes) 3
    then err missing_destination
    else if kind == 0x01
    then parse_address 4 v4 port body
    else if kind == 0x03
    then parse_address 16 v6 port body
    else if kind == 0x02
    then parse_host port body
    else err unsupported_address_type

unfoldable pub encode_packet_parts : Text → Text → Result XudpError Text
encode_packet_parts metadata payload =
    if ltb 65535 (length metadata)
    then err metadata_too_large
    else if ltb 65535 (length payload)
    then err payload_too_large
    else ok (
        be_bytes 2 (length metadata % 2 ^ 16)
        ++ (metadata ++ (be_bytes 2 (length payload % 2 ^ 16) ++ payload)))

unfoldable pub encode_client_packet : ProxyTarget → Text → Bool → Text → Result XudpError Text
encode_client_packet destination payload is_new global_id = do
  bytes ← write_destination_xudp destination
  encode_packet_parts
      (0
        ∷ 0
        ∷ (if is_new then status_new else status_keep)
        ∷ 1
        ∷ network_udp
        ∷ (bytes ++ (if is_new then global_id else [])))
      payload

-- `encode_response_packet`, `encode_packet`
unfoldable pub encode_response_packet : ProxyTarget → Text → Result XudpError Text
encode_response_packet source payload =
    if ltb 65535 (length payload)
    then err payload_too_large
    else write_destination_xudp source
      >>= (λ bytes. encode_packet_parts (0 ∷ 0 ∷ status_keep ∷ 1 ∷ network_udp ∷ bytes) payload)

-- The remembered destination, and the packet or the error.
abbrev pub Answer : Type 0
Answer = Option ProxyTarget × Result XudpError (Option (ProxyTarget × Text))

-- A destination that was read with what followed it: it is remembered when the tail is right.
abbrev pub remember :
    Bool → Text → Option ProxyTarget → Result XudpError (ProxyTarget × Text) → Answer
remember is_new payload current (err e) = (current, err e)
remember is_new payload current (ok (destination, rest)) =
    if length rest == (if is_new then 8 else 0)
    then (some destination, ok (some (destination, payload)))
    else (current, err bad_tail)

abbrev pub recall : Text → Option ProxyTarget → Answer
recall payload none = (none, err no_destination)
recall payload (some destination) = (some destination, ok (some (destination, payload)))

unfoldable pub decode_packet_parts : Text → Text → Option ProxyTarget → Answer
decode_packet_parts metadata payload current =
    let status = get_or metadata 2 0 in
    if status == status_end
    then (current, ok none)
    else if not (status == status_new || status == status_keep)
    then (current, err unsupported_status)
    else if ltb 4 (length metadata)
    then (if get_or metadata 4 0 == network_udp
        then remember (status == status_new) payload current
            (parse_destination_xudp (drop 5 metadata))
        else (current, err unsupported_network))
    else recall payload current

unfoldable pub decode_packet_chunk : Text → Option ProxyTarget → Answer
decode_packet_chunk chunk current =
    let metadata_len = from_be (take 2 chunk) in
    let after = drop metadata_len (drop 2 chunk) in
    let payload_len = from_be (take 2 after) in
    if ltb (length chunk) 4
    then (current, err short_chunk)
    else if ltb metadata_len 4
    then (current, err short_metadata)
    else if ltb (length chunk) (2 + metadata_len + 2)
    then (current, err truncated)
    else if not (length chunk == 2 + metadata_len + 2 + payload_len)
    then (current, err trailing_bytes)
    else decode_packet_parts (take metadata_len (drop 2 chunk)) (drop 2 after) current
