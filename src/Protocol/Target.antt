-- ===== src/Protocol/Target.antt =====
-- `ProxyTarget` and its SOCKS wire form: `canonicalize_socket_addr`, `encode_target`, `decode_target`.
use aerion.Base.{
  ℕ, ◌+◌, ◌^◌, ◌≤◌, ◌<◌, ◌≡◌, refl, sym, ap, ◌∙◌, true, none, some, [], ◌∷◌, ◌++◌, append_assoc,
  arith, leb, ◌==◌, if◌then◌else◌, length, take, drop, Option-cases, Option, inl, inr,
  length-append, take-append_of_length, drop-append_of_length, Result, ok, err,
}
use aerion.Base.Text.{Text, is_utf8}
use aerion.Base.Bytes.{be_bytes, from_be, length-be_bytes, from_be-be_bytes}
use aerion.Net.{IpAddr, v4, v6, IsIp, SocketAddr, new_socket_addr, to_ipv4_mapped}
use aerion.Protocol.Stream.{
  WireError, target_empty, target_too_short, unsupported_address_type, invalid_utf8,
  domain_too_long,
}

pub data ProxyTarget : Type 0 where
  ip : SocketAddr → ProxyTarget
  domain : Text → ℕ → ProxyTarget

-- The values that the fields of the Rust types can hold.
abbrev pub IsTarget : ProxyTarget → Type 0
IsTarget (ip a) = IsIp a.ip × (a.port < 256 ^ 2)
IsTarget (domain host port) = (is_utf8 host ≡ true) × (length host ≤ 255) × (port < 256 ^ 2)

-- The IPv4 address of an IPv4-mapped one.
unfoldable pub mapped_v4 : IpAddr → Option ℕ
mapped_v4 (v4 n) = none
mapped_v4 (v6 n) = to_ipv4_mapped n

-- `canonicalize_socket_addr`
unfoldable pub canonicalize_socket_addr : SocketAddr → SocketAddr
unfolding mapped_v4
canonicalize_socket_addr a = elim (mapped_v4 a.ip) [
  | some m ↦ new_socket_addr (v4 m) a.port
  | none ↦ a
]

-- A type byte, the octets of an address and its port.
unfoldable pub encode_ip : ℕ → ℕ → IpAddr → ℕ → Text
encode_ip tag4 tag6 (v4 n) port = tag4 ∷ (be_bytes 4 n ++ be_bytes 2 port)
encode_ip tag4 tag6 (v6 n) port = tag6 ∷ (be_bytes 16 n ++ be_bytes 2 port)

-- A type byte, the length of a host as one byte, the host and the port.
unfoldable pub encode_domain : ℕ → Text → ℕ → Result WireError Text
encode_domain tag host port =
    if leb (length host) 255
    then ok (tag ∷ length host ∷ (host ++ be_bytes 2 port))
    else err domain_too_long

-- `encode_target`
unfoldable pub encode_target : ProxyTarget → Result WireError Text
unfolding canonicalize_socket_addr
encode_target (ip a) =
    let address = canonicalize_socket_addr a in ok (encode_ip 0x01 0x04 address.ip a.port)
encode_target (domain host port) = encode_domain 0x03 host port

-- The octets and the port after the type byte of an address of `n` bytes.
unfoldable pub decode_ip : ℕ → (ℕ → IpAddr) → Text → Result WireError (ProxyTarget × Text)
decode_ip n version body =
    if leb (n + 2) (length body)
    then ok (
      ip (new_socket_addr (version (from_be (take n body))) (from_be (take 2 (drop n body)))),
      drop 2 (drop n body),
    )
    else err target_too_short

-- The host and the port after the type byte of a domain.
unfoldable pub decode_domain : Text → Result WireError (ProxyTarget × Text)
decode_domain [] = err target_too_short
decode_domain (n ∷ body) =
    if leb (n + 2) (length body)
    then (if is_utf8 (take n body)
        then ok (domain (take n body) (from_be (take 2 (drop n body))), drop 2 (drop n body))
        else err invalid_utf8)
    else err target_too_short

-- `decode_target`
unfoldable pub decode_target : Text → Result WireError (ProxyTarget × Text)
decode_target [] = err target_empty
decode_target (tag ∷ body) =
    if tag == 0x01
    then decode_ip 4 v4 body
    else if tag == 0x03
    then decode_domain body
    else if tag == 0x04
    then decode_ip 16 v6 body
    else err unsupported_address_type

-- A target without the flow information and the scope of an IPv6 address, which no wire form carries.
unfoldable pub unscoped : ProxyTarget → ProxyTarget
unscoped (ip a) = ip (new_socket_addr a.ip a.port)
unscoped (domain host port) = domain host port

-- The form in which a target arrives.
unfoldable pub canonical : ProxyTarget → ProxyTarget
unfolding unscoped
canonical (ip a) = unscoped (ip (canonicalize_socket_addr a))
canonical (domain host port) = domain host port

pub unscoped-unscoped : (t : ProxyTarget) → unscoped (unscoped t) ≡ unscoped t
unfolding unscoped
unscoped-unscoped (ip a) = refl
unscoped-unscoped (domain host port) = refl

pub unscoped-IsTarget : (t : ProxyTarget) → IsTarget t → IsTarget (unscoped t)
unfolding unscoped
unscoped-IsTarget (ip a) h = h
unscoped-IsTarget (domain host port) h = h

decode_ip_fields :
    (n : ℕ) (version : ℕ → IpAddr) (octets port rest : Text)
    → length octets ≡ n
    → length port ≡ 2
    → decode_ip n version (octets ++ (port ++ rest))
      ≡ ok (ip (new_socket_addr (version (from_be octets)) (from_be port)), rest)
unfolding decode_ip
decode_ip_fields n version octets port rest h two =
    rw
      (
        take-append_of_length n octets (port ++ rest) h,
        drop-append_of_length n octets (port ++ rest) h,
        take-append_of_length 2 port rest two,
        drop-append_of_length 2 port rest two,
      )
      ground (arith, length-append octets (port ++ rest), length-append port rest)

-- What was written of an address of `n` bytes is read.
pub decode_ip-encode :
    (n : ℕ) (version : ℕ → IpAddr) (address port : ℕ) (rest : Text)
    → address < 256 ^ n
    → port < 256 ^ 2
    → decode_ip n version ((be_bytes n address ++ be_bytes 2 port) ++ rest)
      ≡ ok (ip (new_socket_addr (version address) port), rest)
decode_ip-encode n version address port rest h small =
    rw (append_assoc (be_bytes n address) (be_bytes 2 port) rest) (
      decode_ip_fields n version (be_bytes n address) (be_bytes 2 port) rest
        (length-be_bytes n address) (length-be_bytes 2 port)
      ∙ rw (from_be-be_bytes n address h, from_be-be_bytes 2 port small))

pub decode_domain-encode :
    (host : Text) (port : ℕ) (rest : Text)
    → IsTarget (domain host port)
    → decode_domain (length host ∷ ((host ++ be_bytes 2 port) ++ rest))
      ≡ ok (domain host port, rest)
unfolding decode_domain
decode_domain-encode host port rest (utf8, short, small) =
    let two = length-be_bytes 2 port in
    rw
      (
        append_assoc host (be_bytes 2 port) rest,
        take-append_of_length (length host) host (be_bytes 2 port ++ rest) refl,
        drop-append_of_length (length host) host (be_bytes 2 port ++ rest) refl,
        take-append_of_length 2 (be_bytes 2 port) rest two,
        drop-append_of_length 2 (be_bytes 2 port) rest two,
        from_be-be_bytes 2 port small,
        utf8,
      )
      ground
      (arith, length-append host (be_bytes 2 port ++ rest), length-append (be_bytes 2 port) rest)

mapped_value : (n m : ℕ) → to_ipv4_mapped n ≡ some m → m < 256 ^ 4
unfolding to_ipv4_mapped
mapped_value n m e = ground arith

mapped_v4_value : (a : IpAddr) (m : ℕ) → mapped_v4 a ≡ some m → m < 256 ^ 4
unfolding mapped_v4
mapped_v4_value (v4 n) m e = absurd (ground (arith, e))
mapped_v4_value (v6 n) m e = mapped_value n m e

canonicalize_socket_addr-IsTarget :
    (a : SocketAddr) → IsTarget (ip a) → IsTarget (ip (canonicalize_socket_addr a))
unfolding canonicalize_socket_addr
canonicalize_socket_addr-IsTarget a h = elim (Option-cases (mapped_v4 a.ip)) [
  | inl e ↦ rw (e, canonicalize_socket_addr) h
  | inr (m, e) ↦ rw (e, canonicalize_socket_addr) (mapped_v4_value a.ip m e, h.1)
]

canonicalize_socket_addr_port : (a : SocketAddr) → (canonicalize_socket_addr a).port ≡ a.port
unfolding canonicalize_socket_addr
canonicalize_socket_addr_port a = elim (Option-cases (mapped_v4 a.ip)) [
  | inl e ↦ rw (e, canonicalize_socket_addr) refl
  | inr (m, e) ↦ rw (e, canonicalize_socket_addr) refl
]

decode_target-encode_ip :
    (a : IpAddr) (port : ℕ) (rest : Text)
    → IsIp a
    → port < 256 ^ 2
    → decode_target (encode_ip 0x01 0x04 a port ++ rest) ≡ ok (ip (new_socket_addr a port), rest)
unfolding decode_target encode_ip
decode_target-encode_ip (v4 n) port rest h small = decode_ip-encode 4 v4 n port rest h small
decode_target-encode_ip (v6 n) port rest h small = decode_ip-encode 16 v6 n port rest h small

-- Every target that the Rust type can hold with a host of at most 255 bytes is encoded, and decoding
-- what was encoded gives the bytes that follow it and the target in its canonical form: an IPv4-mapped
-- address as IPv4, and any other IPv6 address with flow information and scope 0, which are not sent.
pub decode_target-encode_target :
    (t : ProxyTarget) (rest : Text)
    → IsTarget t
    → (bytes : Text) × (encode_target t ≡ ok bytes)
      × (decode_target (bytes ++ rest) ≡ ok (canonical t, rest))
unfolding encode_target canonical unscoped
decode_target-encode_target (ip a) rest valid =
    let b = canonicalize_socket_addr a in
    let (h, small) = canonicalize_socket_addr-IsTarget a valid in
    (
      encode_ip 0x01 0x04 b.ip b.port,
      ap (λ port. ok (encode_ip 0x01 0x04 b.ip port)) (sym (canonicalize_socket_addr_port a)),
      decode_target-encode_ip b.ip b.port rest h small,
    )
decode_target-encode_target (domain host port) rest (utf8, short, small) = (
  0x03 ∷ length host ∷ (host ++ be_bytes 2 port),
  (unfold encode_domain in ground arith),
  (unfold decode_target in decode_domain-encode host port rest (utf8, short, small)),
)
