-- ===== src/Routing/Runs.antt =====
-- A small route table, and the theorems at it.
use aerion.Base.{
  ℕ, ◌/◌, ◌^◌, ◌≤◌, ◌<◌, ◌≡◌, refl, ◌↔◌, true, false, Option, none, some, [], ◌∷◌, arith, bytes_eq,
  bytes_beq, if◌then◌else◌, ok, err, Bool,
}
use aerion.Base.Text.{Text, ascii}
use aerion.Net.{IpAddr, v4, v6, IsIp, new_socket_addr}
use aerion.Protocol.Target.{ip, domain}
use aerion.Routing.{
  RouteDecision, proxy, direct, block, tcp, udp, RouteRule, RouteTable, IpCidr, suffix, covers,
  try_decide, missing_geoip_set,
}
use aerion.Routing.Parse.{parse_cidr, parse_ports}
use aerion.Routing.Parsed.{parse_cidr-covers, parse_ports_bounds}
use aerion.Routing.Decision.{FirstMatch, try_decide-FirstMatch}

-- No regular expressions.
abbrev no_regex : Unit {0} → Text → Bool
no_regex r host = false

abbrev home : IpCidr
home = record { network = v4 0xc0a80000; prefix = 16 }

abbrev any_rule : RouteRule (Unit {0})
any_rule = record {
  action = direct;
  networks = [];
  domains = [];
  ip_cidrs = [];
  geoip_sets = [];
  geosite_sets = [];
  ip_is_private = false;
  ports = [];
}

-- Advertisements are blocked, the set `home` goes direct, and the web goes to an outbound.
abbrev small_table : RouteTable (Unit {0})
small_table = record {
  rules =
      record any_rule { action = block; domains = suffix (ascii "ads.net") ∷ [] }
      ∷ record any_rule { geoip_sets = ascii "home" ∷ [] }
      ∷ record any_rule {
        action = proxy (ascii "web");
        networks = tcp ∷ [];
        ports = record { start = 80; end = 443 } ∷ [];
      }
      ∷ [];
  default = block;
  geoip_sets = (ascii "home", home ∷ []) ∷ [];
  geosite_sets = [];
}

blocked : try_decide no_regex small_table (domain (ascii "x.Ads.net.") 80) tcp ≡ ok block
unfolding try_decide
blocked = refl

at_home : try_decide no_regex small_table (ip (new_socket_addr (v4 0xc0a80102) 22)) udp ≡ ok direct
unfolding try_decide
at_home = refl

web :
    try_decide no_regex small_table (domain (ascii "badads.net") 443) tcp ≡ ok (proxy (ascii "web"))
unfolding try_decide
web = refl

missing :
    try_decide no_regex
      (record small_table { geoip_sets = [] })
      (ip (new_socket_addr (v4 1) 22))
      udp
    ≡ err missing_geoip_set
unfolding try_decide
missing = refl

try_decide-FirstMatch_example :
    (d : RouteDecision) × (try_decide no_regex small_table (domain (ascii "x.ads.net") 80) tcp
      ≡ ok d)
    × FirstMatch no_regex small_table (domain (ascii "x.ads.net") 80) tcp small_table.rules d
try_decide-FirstMatch_example =
    try_decide-FirstMatch no_regex small_table (domain (ascii "x.ads.net") 80) tcp
      ((tt, tt), ((tt, (refl, tt)), ((tt, tt), tt)))

-- A parser that knows one address.
abbrev one_ip : Text → Option IpAddr
one_ip t = if bytes_beq t (ascii "10.0.0.0") then some (v4 0x0a000000) else none

one_ip-IsIp : (t : Text) (a : IpAddr) → one_ip t ≡ some a → IsIp a
one_ip-IsIp t (v4 n) e = ground (arith, e)
one_ip-IsIp t (v6 n) e = ground (arith, e)

ten_parsed :
    parse_cidr one_ip (ascii " 10.0.0.0/8") ≡ ok (record { network = v4 0x0a000000; prefix = 8 })
unfolding parse_cidr
ten_parsed = refl

parse_cidr-covers_example :
    (covers (v4 0x0a010203) (record { network = v4 0x0a000000; prefix = 8 }) ≡ true)
    ↔ (◌≡◌ {A = ℕ} (0x0a000000 / 2 ^ 24) (0x0a010203 / 2 ^ 24))
parse_cidr-covers_example =
    parse_cidr-covers one_ip one_ip-IsIp (ascii " 10.0.0.0/8")
      (record { network = v4 0x0a000000; prefix = 8 }) (v4 0x0a010203) ten_parsed (omega arith)

web_ports : parse_ports (ascii "80-443") ≡ ok (record { start = 80; end = 443 })
unfolding parse_ports
web_ports = refl

parse_ports_bounds_example : ◌≤◌ 80 443 × (443 < 2 ^ 16)
parse_ports_bounds_example =
    parse_ports_bounds (ascii "80-443") (record { start = 80; end = 443 }) web_ports
