-- ===== src/Uot/Runs.antt =====
-- UDP packets over a stream that is cut in the middle of packets.
use aerion.Base.{
  ok_injective, ◌++◌, ◌≡◌, refl, false, List, [], ◌∷◌, arith, take, drop, ok, err, replicate,
}
use aerion.Base.Text.{Text, ascii, is_utf8}
use aerion.Base.Bytes.{be_bytes}
use aerion.Net.{v4, v6, new_socket_addr}
use aerion.Protocol.Stream.{payload_too_large}
use aerion.Protocol.Target.{
  ProxyTarget, ip, domain, IsTarget, canonical, canonicalize_socket_addr, mapped_v4, unscoped,
}
use aerion.Uot.{
  legacy_associate_request, encode_associate_packet, encode_socks_udp_packet,
  parse_socks_udp_packet,
}
use aerion.Uot.Packets.{parse_socks_udp_packet-encode}
use aerion.Uot.Chunks.{receive}
use aerion.Uot.Sequence.{Datagram, FitsIn, encode_packets, receive-encode_packets}

abbrev resolver : ProxyTarget
resolver = ip (new_socket_addr (v4 0x08080808) 53)

resolver-IsTarget : IsTarget resolver
resolver-IsTarget = (omega arith, omega arith)

parse_socks_udp_packet-encode_example :
    (packet : Text) × (encode_socks_udp_packet resolver (ascii "query") ≡ ok packet)
    × (parse_socks_udp_packet packet ≡ ok (resolver, ascii "query"))
unfolding canonical canonicalize_socket_addr mapped_v4 unscoped
parse_socks_udp_packet-encode_example =
    parse_socks_udp_packet-encode resolver (ascii "query") resolver-IsTarget

abbrev empty_bytes : Text
empty_bytes = 2 ∷ 3 ∷ b'a' ∷ b'.' ∷ b'b' ∷ 0 ∷ 53 ∷ 0 ∷ 0 ∷ []

-- A datagram from a link-local address with a scope, and an empty one to a host.
abbrev link_local : ProxyTarget
link_local = ip (record {
  ip = v6 0xfe80_0000_0000_0000_0000_0000_0000_0001;
  port = 53;
  flowinfo = 0;
  scope_id = 3;
})

abbrev local_bytes : Text
local_bytes = 1 ∷ 0xfe ∷ 0x80 ∷ (replicate 13 0 ++ (1 ∷ 0 ∷ 53 ∷ 0 ∷ 5 ∷ ascii "query"))

abbrev two_packets : List Datagram
two_packets = (link_local, ascii "query") ∷ (domain (ascii "a.b") 53, []) ∷ []

two_packets_encoded : encode_packets two_packets ≡ ok (local_bytes ++ empty_bytes)
unfolding encode_packets encode_associate_packet be_bytes
two_packets_encoded = refl

-- The second piece begins inside the first packet and ends inside the second one.
abbrev three_cuts : List Text
three_cuts =
    take 3 (local_bytes ++ empty_bytes)
    ∷ take 26 (drop 3 (local_bytes ++ empty_bytes))
    ∷ drop 29 (local_bytes ++ empty_bytes)
    ∷ []

local_FitsIn : FitsIn 300 (link_local, ascii "query")
unfolding encode_associate_packet be_bytes
local_FitsIn packet e = rw (← ok_injective e) omega arith

empty_FitsIn : FitsIn 300 (domain (ascii "a.b") 53, [])
unfolding encode_associate_packet be_bytes
empty_FitsIn packet e = rw (← ok_injective e) omega arith

receive-encode_packets_example :
    receive legacy_associate_request [] three_cuts
    ≡ ok (
      (ip (new_socket_addr (v6 0xfe80_0000_0000_0000_0000_0000_0000_0001) 53), ascii "query", false)
          ∷ (domain (ascii "a.b") 53, [], false)
          ∷ [],
      [],
    )
unfolding unscoped is_utf8
receive-encode_packets_example =
    receive-encode_packets legacy_associate_request refl 300 two_packets
      (local_bytes ++ empty_bytes) three_cuts
      (
        ((omega arith, omega arith), omega arith),
        (((refl, omega arith, omega arith), omega arith), tt),
      )
      two_packets_encoded (local_FitsIn, (empty_FitsIn, tt)) refl (ground arith)

-- A frame of 65535 bytes is refused when two bytes of a packet are pending.
buffer_exceeded :
    receive legacy_associate_request [] ((0 ∷ 8 ∷ []) ∷ replicate 65535 0 ∷ [])
    ≡ err payload_too_large
unfolding receive
buffer_exceeded = refl
