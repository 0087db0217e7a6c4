-- ===== src/Routing.antt =====
-- src/routing.rs: the route table, its rules, and the decision for a target. The regular expressions
-- are a library's: their type and their match test are arguments.
pub mod Parse
pub mod Cidr
pub mod Parsed
pub mod Domains
pub mod Rules
pub mod Decision
mod Runs
use aerion.Base.{
  ℕ, ◌+◌, ◌-◌, ◌*◌, ◌/◌, ◌%◌, ◌^◌, ◌≡◌, refl, Bool, true, false, not, ◌&&◌, ◌||◌, Option, none,
  some, List, [], ◌∷◌, ◌++◌, leb, ltb, ◌==◌, if◌then◌else◌, is_empty, contains, lookup, insert,
  bytes_eq, bytes_beq, Result, ok, err, ◌>>=◌, PartialEq,
}
use aerion.Base.Text.{Text, trim, to_ascii_lowercase, eq_ignore_ascii_case, ascii}
use aerion.Base.Search.{any, ends_with, has_part}
use aerion.Net.{IpAddr, v4, v6, SocketAddr}
use aerion.Protocol.Target.{ProxyTarget, ip, domain}
use Prim.Native.Nat.{bit_and}

pub data RouteDecision : Type 0 where
  proxy : Text → RouteDecision
  direct block : RouteDecision

pub data RouteNetwork : Type 0 where
  tcp udp dns : RouteNetwork

abbrev pub network_beq : RouteNetwork → RouteNetwork → Bool
network_beq tcp tcp = true
network_beq udp udp = true
network_beq dns dns = true
network_beq tcp _ = false
network_beq udp _ = false
network_beq dns _ = false

pub record IpCidr : Type 0 where
  pub network : IpAddr
  pub prefix : ℕ

pub record PortRange : Type 0 where
  pub start : ℕ
  pub end : ℕ

pub data DomainMatcher (R : Type 0) : Type 0 where
  exact suffix keyword dotless : Text → DomainMatcher R
  regex : R → DomainMatcher R

pub record RouteRule (R : Type 0) : Type 0 where
  pub action : RouteDecision
  pub networks : List RouteNetwork
  pub domains : List (DomainMatcher R)
  pub ip_cidrs : List IpCidr
  pub geoip_sets : List Text
  pub geosite_sets : List Text
  pub ip_is_private : Bool
  pub ports : List PortRange

pub record RouteTable (R : Type 0) : Type 0 where
  pub rules : List (RouteRule R)
  pub default : RouteDecision
  pub geoip_sets : List (Text × List IpCidr)
  pub geosite_sets : List (Text × List (DomainMatcher R))

pub data RouteError : Type 0 where
  missing_geosite_set missing_geoip_set : RouteError
  empty_value invalid_value needs_rule_set : RouteError

-- `trim_end_matches('.')`
unfoldable pub trim_end_dots : Text → Text
trim_end_dots [] = []
trim_end_dots (c ∷ s) =
    let rest = trim_end_dots s in if is_empty rest && c == b'.' then [] else c ∷ rest

unfoldable pub normalize_domain : Text → Text
unfolding trim trim_end_dots
normalize_domain s = to_ascii_lowercase (trim_end_dots (trim s))

unfoldable pub route_set_name : Text → Text
unfolding trim
route_set_name name = to_ascii_lowercase (trim name)

-- `prefix_to_mask_v4`, `prefix_to_mask_v6`: all ones of `w` bits shifted left.
unfoldable pub prefix_to_mask : ℕ → ℕ → ℕ
prefix_to_mask w prefix = if prefix == 0 then 0 else (2 ^ w - 1) * 2 ^ (w - prefix) % 2 ^ w

unfoldable pub in_network : ℕ → ℕ → ℕ → ℕ → Bool
unfolding prefix_to_mask
in_network w prefix network address =
    bit_and network (prefix_to_mask w prefix) == bit_and address (prefix_to_mask w prefix)

-- `IpCidr::contains`
unfoldable pub cidr_contains : IpAddr → ℕ → IpAddr → Bool
unfolding in_network
cidr_contains (v4 network) prefix (v4 address) = in_network 32 prefix network address
cidr_contains (v6 network) prefix (v6 address) = in_network 128 prefix network address
cidr_contains (v4 network) prefix (v6 address) = false
cidr_contains (v6 network) prefix (v4 address) = false

abbrev pub covers : IpAddr → IpCidr → Bool
covers address c = cidr_contains c.network c.prefix address

-- `PortRange::contains`
abbrev pub port_contains : ℕ → PortRange → Bool
port_contains port r = leb r.start port && leb port r.end

-- `is_private_ip`: the private, loopback and link-local networks.
unfoldable pub is_private_ip : IpAddr → Bool
is_private_ip (v4 n) =
    ((n / 2 ^ 24 == 10) || ((n / 2 ^ 20 == 0xac1) || (n / 2 ^ 16 == 0xc0a8)))
    || ((n / 2 ^ 24 == 127) || (n / 2 ^ 16 == 0xa9fe))
is_private_ip (v6 n) = (n / 2 ^ 121 == 0x7e) || ((n == 1) || (n / 2 ^ 118 == 0x3fa))

unfoldable pub target_port : ProxyTarget → ℕ
target_port (ip a) = a.port
target_port (domain host port) = port

-- The loop over the named sets of a rule: all of them are looked up, and one match is enough.
unfoldable pub match_sets {ℓ} :
    {A : Type ℓ}
    → RouteError
    → (A → Bool)
    → List (Text × List A)
    → Bool
    → List Text
    → Result RouteError Bool
match_sets missing test sets matched [] = ok matched
match_sets missing test sets matched (name ∷ names) = elim (lookup name sets) [
  | none ↦ err missing
  | some items ↦ match_sets missing test sets (matched || any test items) names
]

module _ {R : Type 0} (is_match : R → Text → Bool) where
  -- `DomainMatcher::matches`
  unfoldable pub domain_matches : Text → DomainMatcher R → Bool
  domain_matches host (exact expected) = bytes_beq host expected
  domain_matches host (suffix s) = bytes_beq host s || ends_with (b'.' ∷ s) host
  domain_matches host (keyword k) = has_part k host
  domain_matches host (dotless k) = not (has_part (b'.' ∷ []) host) && has_part k host
  domain_matches host (regex r) = is_match r host

  -- The part of `try_matches` on names.
  unfoldable pub match_domain : RouteRule R → RouteTable R → ProxyTarget → Result RouteError Bool
  unfolding match_sets normalize_domain domain_matches
  match_domain rule table (ip a) = ok (is_empty rule.domains && is_empty rule.geosite_sets)
  match_domain rule table (domain name port) =
      let host = normalize_domain name in
      if is_empty rule.domains && is_empty rule.geosite_sets
      then ok true
      else match_sets missing_geosite_set (domain_matches host) table.geosite_sets
          (any (domain_matches host) rule.domains) rule.geosite_sets

  -- The part on addresses, for a rule that asks for one.
  unfoldable pub match_address : RouteRule R → RouteTable R → IpAddr → Result RouteError Bool
  unfolding match_sets is_private_ip cidr_contains
  match_address rule table address =
      if rule.ip_is_private && not (is_private_ip address)
      then ok false
      else if not (is_empty rule.ip_cidrs) && not (any (covers address) rule.ip_cidrs)
      then ok false
      else if is_empty rule.geoip_sets
      then ok true
      else match_sets missing_geoip_set (covers address) table.geoip_sets false rule.geoip_sets

  unfoldable pub match_ip : RouteRule R → RouteTable R → ProxyTarget → Result RouteError Bool
  unfolding match_address
  match_ip rule table target =
      if rule.ip_is_private || (not (is_empty rule.ip_cidrs) || not (is_empty rule.geoip_sets))
      then elim target [ domain _ _ ↦ ok false | ip a ↦ match_address rule table a.ip ]
      else ok true

  -- `RouteRule::try_matches`
  unfoldable pub try_matches :
      RouteRule R → RouteTable R → ProxyTarget → RouteNetwork → Result RouteError Bool
  unfolding target_port match_domain match_ip
  try_matches rule table target network =
      if not (is_empty rule.networks) && not (any (network_beq network) rule.networks)
      then ok false
      else if not (is_empty rule.ports) && not (any (port_contains (target_port target)) rule.ports)
      then ok false
      else (do
        named ← match_domain rule table target
        if named then match_ip rule table target else ok false)

  -- `find_map` over the rules.
  unfoldable pub decide_rules :
      RouteTable R
      → ProxyTarget
      → RouteNetwork
      → List (RouteRule R)
      → Result RouteError RouteDecision
  unfolding try_matches
  decide_rules table target network [] = ok table.default
  decide_rules table target network (rule ∷ rules) = elim (try_matches rule table target network) [
    | err e ↦ err e
    | ok matched ↦ elim matched [
      | true ↦ ok rule.action
      | false ↦ decide_rules table target network rules
    ]
  ]

  -- `RouteTable::try_decide`
  unfoldable pub try_decide :
      RouteTable R → ProxyTarget → RouteNetwork → Result RouteError RouteDecision
  unfolding decide_rules
  try_decide table target network = decide_rules table target network table.rules

module _ {R : Type 0} where
  -- `RouteTable::add_geoip_set`
  unfoldable pub add_geoip_set : Text → List IpCidr → RouteTable R → RouteTable R
  unfolding route_set_name
  add_geoip_set name cidrs table = record table {
    geoip_sets = insert (route_set_name name) cidrs table.geoip_sets;
  }

  -- `RouteTable::add_geosite_set`
  unfoldable pub add_geosite_set : Text → List (DomainMatcher R) → RouteTable R → RouteTable R
  unfolding route_set_name
  add_geosite_set name domains table = record table {
    geosite_sets = insert (route_set_name name) domains table.geosite_sets;
  }
