-- ===== src/Tuic/Wire.antt =====
-- Round trips of a TUIC address and of a single packet command.
use aerion.Base.{
  ℕ, ◌+◌, ◌^◌, ◌%◌, ◌≤◌, ◌<◌, ◌≡◌, refl, ◌∙◌, ap, Bool, ◌||◌, Option, none, some, [], ◌∷◌, ◌++◌,
  arith, ◌==◌, length, is_some, length-append, take_all, ok, ◌>>=◌,
}
use aerion.Base.Text.{Text}
use aerion.Base.Bytes.{be_bytes, from_be, length-be_bytes, from_be-be_bytes}
use aerion.Net.{IpAddr, v4, v6, IsIp, new_socket_addr}
use aerion.Protocol.Target.{
  ProxyTarget, ip, domain, IsTarget, unscoped, encode_ip, encode_domain, decode_ip-encode,
  decode_domain-encode,
}
use aerion.Tuic.{
  TuicPacketCommand, encode_tuic_address, parse_tuic_address, present, encode_packet_command,
  command_bytes,
}
use aerion.Tuic.Receive.{parse_packet_command, parse_payload}

-- The values of the Rust type.
abbrev pub IsOptionalTarget : Option ProxyTarget → Type 0
IsOptionalTarget none = Unit {0}
IsOptionalTarget (some target) = IsTarget target

-- The encoded form of an address.
pub record IsWireAddress (target : Option ProxyTarget) (address : Text) : Type 0 where
  pub written : encode_tuic_address target ≡ ok address
  pub address_short : length address ≤ 259
  pub read : (rest : Text) → parse_tuic_address (address ++ rest) ≡ ok (target, rest)

pub none-IsWireAddress : IsWireAddress none (0xff ∷ [])
unfolding encode_tuic_address parse_tuic_address
none-IsWireAddress = record { written = refl; address_short = omega arith; read = λ rest. refl }

length-ip : (k n port : ℕ) → length (be_bytes k n ++ be_bytes 2 port) ≡ k + 2
length-ip k n port = omega (
  arith,
  length-append (be_bytes k n) (be_bytes 2 port),
  length-be_bytes k n,
  length-be_bytes 2 port,
)

ip-IsWireAddress :
    (a : IpAddr) (port : ℕ)
    → IsIp a
    → port < 256 ^ 2
    → IsWireAddress (some (ip (new_socket_addr a port))) (encode_ip 0x01 0x02 a port)
unfolding encode_tuic_address parse_tuic_address encode_ip
ip-IsWireAddress (v4 n) port h small = record {
  written = refl;
  address_short = omega (arith, length-ip 4 n port);
  read = λ rest. ap (λ r. r >>= present) (decode_ip-encode 4 v4 n port rest h small);
}
ip-IsWireAddress (v6 n) port h small = record {
  written = refl;
  address_short = omega (arith, length-ip 16 n port);
  read = λ rest. ap (λ r. r >>= present) (decode_ip-encode 16 v6 n port rest h small);
}

domain-IsWireAddress :
    (host : Text) (port : ℕ)
    → IsTarget (domain host port)
    → IsWireAddress (some (domain host port)) (0x00 ∷ length host ∷ (host ++ be_bytes 2 port))
domain-IsWireAddress host port valid = record {
  written = unfold encode_tuic_address encode_domain in ground (arith, valid.1);
  address_short =
      omega (arith, valid.1, length-append host (be_bytes 2 port), length-be_bytes 2 port);
  read = λ rest.
      unfold parse_tuic_address in
      ap (λ r. r >>= present) (decode_domain-encode host port rest valid);
}

-- Every target that the Rust type can hold with a host of at most 255 bytes has, without flow
-- information and scope, an encoded form.
pub encode_tuic_address-IsWireAddress :
    (target : ProxyTarget)
    → IsTarget target
    → (address : Text) × IsWireAddress (some (unscoped target)) address
unfolding unscoped
encode_tuic_address-IsWireAddress (ip a) (h, small) =
    (encode_ip 0x01 0x02 a.ip a.port, ip-IsWireAddress a.ip a.port h small)
encode_tuic_address-IsWireAddress (domain host port) valid =
    (0x00 ∷ length host ∷ (host ++ be_bytes 2 port), domain-IsWireAddress host port valid)

-- The first fragment has an address, and the others have none.
abbrev pub has_address : ℕ → ℕ → Bool
has_address frag_total frag_id = frag_total == 1 || frag_id == 0

-- The commands that the senders build.
pub record IsCommand (p : TuicPacketCommand) : Type 0 where
  pub assoc_small : p.assoc_id < 256 ^ 2
  pub packet_small : p.packet_id < 256 ^ 2
  pub total_small : p.frag_total < 256
  pub in_range : p.frag_id < p.frag_total
  pub target_valid : IsOptionalTarget p.target
  pub addressed : is_some p.target ≡ has_address p.frag_total p.frag_id
  pub payload_short : length p.payload ≤ 65535

-- The bytes of a command.
abbrev pub bytes_of : TuicPacketCommand → Text → Text
bytes_of p = command_bytes p.assoc_id p.packet_id p.frag_total p.frag_id p.payload

length-bytes_of :
    (p : TuicPacketCommand) (address : Text)
    → length (bytes_of p address) ≡ 10 + (length address + length p.payload)
unfolding be_bytes
length-bytes_of p address = omega (arith, length-append address p.payload)

from_be_two : (n : ℕ) → n < 256 ^ 2 → from_be (be_bytes 2 n) ≡ n
from_be_two n h = from_be-be_bytes 2 n h

parse_payload-bytes_of :
    (p : TuicPacketCommand) (address : Text)
    → IsCommand p
    → parse_payload (bytes_of p address) (p.target, p.payload) ≡ ok p
unfolding parse_payload be_bytes
parse_payload-bytes_of p address c =
    let size : from_be (be_bytes 2 (length p.payload % 2 ^ 16)) ≡ length p.payload =
      from_be_two (length p.payload % 2 ^ 16) (omega arith) ∙ omega (arith, c.payload_short) in
    rw (size, from_be_two p.assoc_id c.assoc_small, from_be_two p.packet_id c.packet_small) ground
      (arith, c.addressed, take_all (length p.payload) p.payload refl)

-- A command in its bytes.
pub record IsSent (p : TuicPacketCommand) (address bytes : Text) : Type 0 where
  pub encoded :
      encode_packet_command p.assoc_id p.packet_id p.frag_total p.frag_id p.target p.payload
      ≡ ok bytes
  pub parsed : parse_packet_command bytes ≡ ok p
  pub size : length bytes ≡ 10 + (length address + length p.payload)

-- Every command that a sender builds is encoded, and parsing the bytes gives the command again.
pub parse_packet_command-IsSent :
    (p : TuicPacketCommand) (address : Text)
    → IsCommand p
    → IsWireAddress p.target address
    → IsSent p address (bytes_of p address)
parse_packet_command-IsSent p address c a = record {
  encoded = (unfold encode_packet_command in rw (a.written) ground (arith, c.payload_short));
  parsed =
      (unfold parse_packet_command be_bytes in
        rw (a.read p.payload) ground (arith, c.in_range, parse_payload-bytes_of p address c));
  size = length-bytes_of p address;
}
