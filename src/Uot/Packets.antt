-- ===== src/Uot/Packets.antt =====
-- Round trips of single packets: decoding gives back what was encoded, and the length that the stream
-- reader computes is that of the packet.
use aerion.Base.{
  ℕ, ◌+◌, ◌%◌, ◌^◌, ◌≤◌, ◌<◌, ◌≡◌, refl, sym, ap, ◌∙◌, some, [], ◌∷◌, ◌++◌, append_assoc,
  append-nil, arith, length, take, drop, length-append, ok, ok_injective, subst,
  take-append_of_length, drop-append_of_length,
}
use aerion.Base.Text.{Text}
use aerion.Base.Bytes.{be_bytes, from_be, length-be_bytes, from_be-be_bytes}
use aerion.Net.{IpAddr, v4, v6, IsIp}
use aerion.Protocol.Target.{
  ProxyTarget, ip, domain, IsTarget, canonical, encode_ip, encode_domain, decode_ip-encode,
  unscoped, decode_domain-encode, decode_target, decode_target-encode_target,
}
use aerion.Uot.{
  write_uot_address, read_uot_address, decode_connect_packet, encode_associate_packet,
  decode_associate_packet, payload_len_offset, associate_packet_len, parse_socks_udp_packet,
  encode_socks_udp_packet,
}

-- A payload after its length.
abbrev pub sized : Text → Text
sized payload = be_bytes 2 (length payload % 2 ^ 16) ++ payload

pub size_read :
    (payload rest : Text)
    → length payload ≤ 65535
    → from_be (take 2 (sized payload ++ rest)) ≡ length payload
size_read payload rest h =
    let size = be_bytes 2 (length payload % 2 ^ 16) in
    rw
      (
        append_assoc size payload rest,
        take-append_of_length 2 size (payload ++ rest)
            (length-be_bytes 2 (length payload % 2 ^ 16)),
      )
      (from_be-be_bytes 2 (length payload % 2 ^ 16) (omega arith) ∙ omega (arith, h))

pub length-sized : (payload : Text) → length (sized payload) ≡ 2 + length payload
length-sized payload =
    let size = be_bytes 2 (length payload % 2 ^ 16) in
    omega (arith, length-append size payload, length-be_bytes 2 (length payload % 2 ^ 16))

-- A connected packet of at most 65535 bytes is decoded to its payload.
pub decode_connect_packet-sized :
    (payload : Text) → length payload ≤ 65535 → decode_connect_packet (sized payload) ≡ ok payload
unfolding decode_connect_packet
decode_connect_packet-sized payload h =
    let size = be_bytes 2 (length payload % 2 ^ 16) in
    let value : from_be (take 2 (sized payload)) ≡ length payload =
      ap (λ xs. from_be (take 2 xs)) (sym (append-nil (sized payload))) ∙ size_read payload [] h in
    let left : drop 2 (sized payload) ≡ payload =
      drop-append_of_length 2 size payload (length-be_bytes 2 (length payload % 2 ^ 16)) in
    let whole = length-sized payload in rw (value, left) ground (arith, whole)

-- The encoded form of an address: it is read back, and the stream reader knows where it ends.
pub record IsAddress (t : ProxyTarget) (address : Text) : Type 0 where
  pub written : write_uot_address t ≡ ok address
  pub read : (rest : Text) → read_uot_address (address ++ rest) ≡ ok (unscoped t, rest)
  pub offset : (rest : Text) → payload_len_offset (address ++ rest) ≡ ok (some (length address))
  pub address_short : length address ≤ 259

length-ip : (k n port : ℕ) → length (be_bytes k n ++ be_bytes 2 port) ≡ k + 2
length-ip k n port = omega (
  arith,
  length-append (be_bytes k n) (be_bytes 2 port),
  length-be_bytes k n,
  length-be_bytes 2 port,
)

ip-IsAddress :
    (a : IpAddr) (port flowinfo scope_id : ℕ)
    → IsIp a
    → port < 256 ^ 2
    → IsAddress
        (ip (record { ip = a; port = port; flowinfo = flowinfo; scope_id = scope_id }))
        (encode_ip 0x00 0x01 a port)
unfolding unscoped write_uot_address read_uot_address payload_len_offset encode_ip
ip-IsAddress (v4 n) port flowinfo scope_id h small = record {
  written = refl;
  read = λ rest. decode_ip-encode 4 v4 n port rest h small;
  offset = λ rest.
      ground (arith, length-append (be_bytes 4 n ++ be_bytes 2 port) rest, length-ip 4 n port);
  address_short = omega (arith, length-ip 4 n port);
}
ip-IsAddress (v6 n) port flowinfo scope_id h small = record {
  written = refl;
  read = λ rest. decode_ip-encode 16 v6 n port rest h small;
  offset = λ rest.
      ground (arith, length-append (be_bytes 16 n ++ be_bytes 2 port) rest, length-ip 16 n port);
  address_short = omega (arith, length-ip 16 n port);
}

-- Every target that the Rust type can hold, with a host of at most 255 bytes, has an encoded form.
pub uot-IsAddress : (t : ProxyTarget) → IsTarget t → (address : Text) × IsAddress t address
unfolding write_uot_address read_uot_address payload_len_offset encode_domain unscoped
uot-IsAddress (ip a) (h, small) =
    (encode_ip 0x00 0x01 a.ip a.port, ip-IsAddress a.ip a.port a.flowinfo a.scope_id h small)
uot-IsAddress (domain host port) (utf8, short, small) = (
  0x02 ∷ length host ∷ (host ++ be_bytes 2 port),
  record {
    written = ground arith;
    read = λ rest. decode_domain-encode host port rest (utf8, short, small);
    offset = λ rest. ground (
      arith,
      length-append (host ++ be_bytes 2 port) rest,
      length-append host (be_bytes 2 port),
      length-be_bytes 2 port,
    );
    address_short =
        omega (arith, length-append host (be_bytes 2 port), length-be_bytes 2 port, short);
  },
)

-- The encoded form of a packet: it is decoded, and it is as long as the stream reader computes from
-- any bytes that begin with it.
pub record IsPacket (t : ProxyTarget) (payload packet : Text) : Type 0 where
  pub encoded : encode_associate_packet t payload ≡ ok packet
  pub decoded : decode_associate_packet packet ≡ ok (unscoped t, payload)
  pub measured : (rest : Text) → associate_packet_len (packet ++ rest) ≡ ok (some (length packet))
  pub packet_short : length packet ≤ 65796

IsPacket-of_address :
    (t : ProxyTarget) (address payload : Text)
    → IsAddress t address
    → length payload ≤ 65535
    → IsPacket t payload (address ++ sized payload)
unfolding encode_associate_packet decode_associate_packet associate_packet_len
IsPacket-of_address t address payload a small =
    let total = length-append address (sized payload) in
    let body = length-sized payload in
    record {
      encoded = rw (a.written) ground arith;
      decoded = rw (a.read (sized payload), decode_connect_packet-sized payload small) refl;
      measured = λ rest.
          rw
            (
              append_assoc address (sized payload) rest,
              a.offset (sized payload ++ rest),
              drop-append_of_length (length address) address (sized payload ++ rest) refl,
              size_read payload rest small,
            )
            ground
            (
              arith,
              total,
              body,
              length-append address (sized payload ++ rest),
              length-append (sized payload) rest,
            );
      packet_short = omega (arith, total, body, a.address_short, small);
    }

-- A packet with a target that the Rust type can hold, a host of at most 255 bytes and a payload of at
-- most 65535 bytes is encoded.
pub associate-IsPacket_of :
    (t : ProxyTarget) (payload : Text)
    → IsTarget t
    → length payload ≤ 65535
    → (packet : Text) × IsPacket t payload packet
associate-IsPacket_of t payload h small =
    let (address, a) = uot-IsAddress t h in
    (address ++ sized payload, IsPacket-of_address t address payload a small)

-- What `encode_associate_packet` returns for such a packet is its encoded form.
pub encode_associate_packet-IsPacket :
    (t : ProxyTarget) (payload packet : Text)
    → IsTarget t
    → length payload ≤ 65535
    → encode_associate_packet t payload ≡ ok packet
    → IsPacket t payload packet
encode_associate_packet-IsPacket t payload packet h small e =
    let (packet', p) = associate-IsPacket_of t payload h small in
    subst (IsPacket t payload) (ok_injective (sym p.encoded ∙ e)) p

parse_after_header :
    (s : Text) (r : ProxyTarget × Text)
    → decode_target s ≡ ok r
    → parse_socks_udp_packet (0 ∷ 0 ∷ 0 ∷ s) ≡ ok r
unfolding parse_socks_udp_packet decode_target
parse_after_header [] r e = cc
parse_after_header (d ∷ s) r e = e

-- A SOCKS5 UDP packet gives back the payload and the target in its canonical form: an IPv4-mapped
-- address as IPv4, and any other IPv6 address with flow information and scope 0, which are not sent.
pub parse_socks_udp_packet-encode :
    (t : ProxyTarget) (payload : Text)
    → IsTarget t
    → (packet : Text) × (encode_socks_udp_packet t payload ≡ ok packet)
      × (parse_socks_udp_packet packet ≡ ok (canonical t, payload))
unfolding encode_socks_udp_packet
parse_socks_udp_packet-encode t payload h =
    let (address, e, d) = decode_target-encode_target t payload h in
    (
      0 ∷ 0 ∷ 0 ∷ (address ++ payload),
      rw e refl,
      parse_after_header (address ++ payload) (canonical t, payload) d,
    )
