-- ===== src/Xudp/Packets.antt =====
-- A packet that was encoded is decoded, and its destination remembered.
use aerion.Base.{
  ℕ, ◌+◌, ◌%◌, ◌^◌, ◌≤◌, ◌<◌, ◌≡◌, refl, ◌∙◌, Bool, true, false, Option, some, [], ◌∷◌, ◌++◌, arith,
  append_assoc, ltb, ◌==◌, if◌then◌else◌, length, length-append, take-append_of_length,
  drop-append_of_length, ok, err,
}
use aerion.Base.Text.{Text, is_utf8}
use aerion.Base.Bytes.{be_bytes, from_be, length-be_bytes, from_be-be_bytes}
use aerion.Net.{IpAddr, v4, v6, IsIp, new_socket_addr}
use aerion.Protocol.Target.{ProxyTarget, ip, domain, IsTarget, unscoped}
use aerion.Xudp.{
  write_destination_xudp, destination_address, parse_destination_xudp, parse_address, parse_host,
  encode_packet_parts, encode_client_packet, decode_packet_parts, decode_packet_chunk,
  unsupported_address_type, status_new, status_keep, network_udp,
}

-- The bytes of a destination: they are read back.
record IsDestination (target : ProxyTarget) (bytes : Text) : Type 0 where
  written : write_destination_xudp target ≡ ok bytes
  short : length bytes ≤ 259
  read : (rest : Text) → parse_destination_xudp (bytes ++ rest) ≡ ok (unscoped target, rest)

address_read :
    (n : ℕ) (version : ℕ → IpAddr) (address port : ℕ) (rest : Text)
    → address < 256 ^ n
    → parse_address n version port (be_bytes n address ++ rest)
      ≡ ok (ip (new_socket_addr (version address) port), rest)
unfolding parse_address
address_read n version address port rest h =
    let size = length-be_bytes n address in
    rw
      (
        take-append_of_length n (be_bytes n address) rest size,
        drop-append_of_length n (be_bytes n address) rest size,
        from_be-be_bytes n address h,
      )
      ground (arith, length-append (be_bytes n address) rest, size)

host_read :
    (host : Text) (port : ℕ) (rest : Text)
    → is_utf8 host ≡ true
    → parse_host port (length host ∷ (host ++ rest)) ≡ ok (domain host port, rest)
unfolding parse_host
host_read host port rest utf8 =
    rw
      (
        take-append_of_length (length host) host rest refl,
        drop-append_of_length (length host) host rest refl,
        utf8,
      )
      ground (arith, length-append host rest)

kind_read :
    (port kind : ℕ) (body : Text)
    → port < 256 ^ 2
    → parse_destination_xudp (be_bytes 2 port ++ (kind ∷ body)) ≡ (
        if kind == 0x01
        then parse_address 4 v4 port body
        else if kind == 0x03
        then parse_address 16 v6 port body
        else if kind == 0x02
        then parse_host port body
        else err unsupported_address_type)
unfolding parse_destination_xudp be_bytes
kind_read port kind body small =
    let long : ltb (3 + length body) 3 ≡ false = ground arith in
    rw (from_be-be_bytes 2 port small) ground arith

address :
    (a : IpAddr) (port flowinfo scope_id : ℕ)
    → IsIp a
    → port < 256 ^ 2
    → IsDestination
        (ip (record { ip = a; port = port; flowinfo = flowinfo; scope_id = scope_id }))
        (be_bytes 2 port ++ destination_address a)
unfolding unscoped write_destination_xudp destination_address
address (v4 n) port flowinfo scope_id h small = record {
  written = refl;
  short = omega (
    arith,
    length-append (be_bytes 2 port) (0x01 ∷ be_bytes 4 n),
    length-be_bytes 4 n,
    length-be_bytes 2 port,
  );
  read = λ rest.
      rw (append_assoc (be_bytes 2 port) (0x01 ∷ be_bytes 4 n) rest)
        (kind_read port 0x01 (be_bytes 4 n ++ rest) small ∙ address_read 4 v4 n port rest h);
}
address (v6 n) port flowinfo scope_id h small = record {
  written = refl;
  short = omega (
    arith,
    length-append (be_bytes 2 port) (0x03 ∷ be_bytes 16 n),
    length-be_bytes 16 n,
    length-be_bytes 2 port,
  );
  read = λ rest.
      rw (append_assoc (be_bytes 2 port) (0x03 ∷ be_bytes 16 n) rest)
        (kind_read port 0x03 (be_bytes 16 n ++ rest) small ∙ address_read 16 v6 n port rest h);
}

destination : (target : ProxyTarget) → IsTarget target → (bytes : Text) × IsDestination target bytes
unfolding unscoped
destination (ip a) (h, small) = (
  be_bytes 2 a.port ++ destination_address a.ip,
  address a.ip a.port a.flowinfo a.scope_id h small,
)
destination (domain host port) (utf8, fits, small) = (
  be_bytes 2 port ++ (0x02 ∷ length host ∷ host),
  record {
    written = (unfold write_destination_xudp in ground (arith, fits));
    short = omega (
      arith,
      fits,
      length-append (be_bytes 2 port) (0x02 ∷ length host ∷ host),
      length-be_bytes 2 port,
    );
    read = λ rest.
        rw (append_assoc (be_bytes 2 port) (0x02 ∷ length host ∷ host) rest) (
          kind_read port 0x02 (length host ∷ (host ++ rest)) small ∙ host_read host port rest utf8);
  },
)

from_two : (n : ℕ) → n ≤ 65535 → from_be (be_bytes 2 (n % 2 ^ 16)) ≡ n
from_two n h = from_be-be_bytes 2 (n % 2 ^ 16) (omega arith) ∙ omega (arith, h)

-- The parts of a chunk are found again.
pub chunk_parts :
    (metadata payload : Text) (current : Option ProxyTarget)
    → 4 ≤ length metadata
    → length metadata ≤ 65535
    → length payload ≤ 65535
    → (chunk : Text) × (encode_packet_parts metadata payload ≡ ok chunk)
      × (decode_packet_chunk chunk current ≡ decode_packet_parts metadata payload current)
chunk_parts metadata payload current long short fits =
    let size = be_bytes 2 (length payload % 2 ^ 16) in
    let chunk = be_bytes 2 (length metadata % 2 ^ 16) ++ (metadata ++ (size ++ payload)) in
    (
      chunk,
      (unfold encode_packet_parts in ground (arith, short, fits)),
      (unfold decode_packet_chunk be_bytes in
          rw
            (
              from_two (length metadata) short,
              take-append_of_length (length metadata) metadata (size ++ payload) refl,
              drop-append_of_length (length metadata) metadata (size ++ payload) refl,
              from_two (length payload) fits,
            )
            ground (arith, long, length-append metadata (size ++ payload))),
    )

-- The metadata of a packet is read, and the destination remembered.
metadata_read :
    (target : ProxyTarget) (bytes payload global_id : Text) (is_new : Bool)
    (current : Option ProxyTarget)
    → IsDestination target bytes
    → length global_id ≡ 8
    → decode_packet_parts
        (0
          ∷ 0
          ∷ (if is_new then status_new else status_keep)
          ∷ 1
          ∷ network_udp
          ∷ (bytes ++ (if is_new then global_id else [])))
        payload
        current
      ≡ (some (unscoped target), ok (some (unscoped target, payload)))
unfolding decode_packet_parts
metadata_read target bytes payload global_id true current d size =
    rw (d.read global_id) ground (arith, size)
metadata_read target bytes payload global_id false current d size = rw (d.read []) ground arith

-- A packet of at most 65535 bytes for a target that the Rust type can hold, with a host of at most 255
-- bytes, is encoded by the client as the first of its session or as a later one, and decoding the chunk
-- gives the target (an IPv6 one with flow information and scope 0, which are not sent) and the payload,
-- and remembers this target, whatever was remembered before.
pub decode_packet_chunk-encode_client_packet :
    (target : ProxyTarget) (payload global_id : Text) (is_new : Bool) (current : Option ProxyTarget)
    → IsTarget target
    → length payload ≤ 65535
    → length global_id ≡ 8
    → (chunk : Text) × (encode_client_packet target payload is_new global_id ≡ ok chunk)
      × (decode_packet_chunk chunk current
          ≡ (some (unscoped target), ok (some (unscoped target, payload))))
decode_packet_chunk-encode_client_packet target payload global_id is_new current valid fits size =
    let (bytes, d) = destination target valid in
    let tail = if is_new then global_id else [] in
    let metadata =
      0 ∷ 0 ∷ (if is_new then status_new else status_keep) ∷ 1 ∷ network_udp ∷ (bytes ++ tail) in
    let (chunk, encoded, decoded) =
      chunk_parts metadata payload current (omega arith)
        (ground (arith, length-append bytes tail, d.short, size)) fits in
    (
      chunk,
      (unfold encode_client_packet in rw (d.written) encoded),
      decoded ∙ metadata_read target bytes payload global_id is_new current d size,
    )
