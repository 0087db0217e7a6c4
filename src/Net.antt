-- ===== src/Net.antt =====
-- The addresses of std::net that the kernel uses: IpAddr, SocketAddr, their Display, and the
-- IPv4-mapped form. An address is its number, a u32 or a u128.
use aerion.Base.{
  ℕ, zero, suc, ◌+◌, ◌-◌, ◌/◌, ◌%◌, ◌^◌, ◌<◌, ◌≡◌, refl, Option, none, some, List, [], ◌∷◌, ◌++◌,
  ltb, ◌==◌, if◌then◌else◌, take, drop,
}
use aerion.Base.Text.{Text, ascii}

pub data IpAddr : Type 0 where
  v4 : ℕ → IpAddr
  v6 : ℕ → IpAddr

abbrev pub IsIp : IpAddr → Type 0
IsIp (v4 n) = n < 256 ^ 4
IsIp (v6 n) = n < 256 ^ 16

-- `flowinfo` and `scope_id` are those of a SocketAddrV6; an IPv4 address has neither, and they are 0.
pub record SocketAddr : Type 0 where
  pub ip : IpAddr
  pub port : ℕ
  pub flowinfo : ℕ
  pub scope_id : ℕ

-- `SocketAddr::new`
abbrev pub new_socket_addr : IpAddr → ℕ → SocketAddr
new_socket_addr ip port = record { ip = ip; port = port; flowinfo = 0; scope_id = 0 }

-- `Ipv6Addr::to_ipv4_mapped`: ::ffff:a.b.c.d
unfoldable pub to_ipv4_mapped : ℕ → Option ℕ
to_ipv4_mapped n = if n / 2 ^ 32 == 0xffff then some (n % 2 ^ 32) else none

abbrev pub digit : ℕ → ℕ
digit d = if ltb d 10 then b'0' + d else b'a' + d - 10

-- A u8 in decimal.
decimal_u8 : ℕ → Text
decimal_u8 n =
    if ltb n 10
    then digit n ∷ []
    else if ltb n 100
    then digit (n / 10) ∷ digit (n % 10) ∷ []
    else digit (n / 100) ∷ digit (n / 10 % 10) ∷ digit (n % 10) ∷ []

-- A u16 in hexadecimal, with no leading zero.
hex_u16 : ℕ → Text
hex_u16 n =
    if ltb n 16
    then digit n ∷ []
    else if ltb n 256
    then digit (n / 16) ∷ digit (n % 16) ∷ []
    else if ltb n 4096
    then digit (n / 256) ∷ digit (n / 16 % 16) ∷ digit (n % 16) ∷ []
    else digit (n / 4096) ∷ digit (n / 256 % 16) ∷ digit (n / 16 % 16) ∷ digit (n % 16) ∷ []

show_v4 : ℕ → Text
unfolding decimal_u8
show_v4 n =
    decimal_u8 (n / 2 ^ 24 % 256)
    ++ (b'.' ∷ decimal_u8 (n / 2 ^ 16 % 256))
    ++ (b'.' ∷ decimal_u8 (n / 2 ^ 8 % 256))
    ++ (b'.' ∷ decimal_u8 (n % 256))

segments : ℕ → ℕ → List ℕ
segments zero n = []
segments (suc k) n = (n / 65536 ^ k % 65536) ∷ segments k n

show_segments : List ℕ → Text
unfolding hex_u16
show_segments [] = []
show_segments (s ∷ []) = hex_u16 s
show_segments (s ∷ t ∷ r) = hex_u16 s ++ (b':' ∷ show_segments (t ∷ r))

-- The first longest run of zero segments, as its start and length.
longest_zeroes : ℕ → ℕ → ℕ → ℕ → ℕ → List ℕ → ℕ × ℕ
longest_zeroes i start len best_start best_len [] = (best_start, best_len)
longest_zeroes i start len best_start best_len (s ∷ r) =
    let start' : ℕ = if len == 0 then i else start in
    let zeroes =
      longest_zeroes (i + 1) start' (len + 1)
        (if ltb best_len (len + 1) then start' else best_start)
        (if ltb best_len (len + 1) then len + 1 else best_len) r in
    let other = longest_zeroes (i + 1) 0 0 best_start best_len r in if s == 0 then zeroes else other

show_compressed : List ℕ → ℕ × ℕ → Text
unfolding show_segments
show_compressed segs (start, len) =
    if ltb 1 len
    then show_segments (take start segs) ++ (b':' ∷ b':' ∷ show_segments (drop (start + len) segs))
    else show_segments segs

show_v6 : ℕ → Text
unfolding show_v4 segments longest_zeroes show_compressed to_ipv4_mapped
show_v6 n = elim (to_ipv4_mapped n) [
  | some ip ↦ ascii "::ffff:" ++ show_v4 ip
  | none ↦ let segs = segments 8 n in show_compressed segs (longest_zeroes 0 0 0 0 0 segs)
]

-- `IpAddr::to_string`
unfoldable pub to_string : IpAddr → Text
unfolding show_v4 show_v6
to_string (v4 n) = show_v4 n
to_string (v6 n) = show_v6 n

loopback_text : to_string (v6 1) ≡ ascii "::1"
unfolding to_string
loopback_text = refl

documentation_text :
    to_string (v6 0x20010db8_0000_0000_0001_0000_0000_0001) ≡ ascii "2001:db8::1:0:0:1"
unfolding to_string
documentation_text = refl

mapped_text : to_string (v6 0xffff_c0a8_0001) ≡ ascii "::ffff:192.168.0.1"
unfolding to_string
mapped_text = refl
