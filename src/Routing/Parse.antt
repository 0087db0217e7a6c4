-- ===== src/Routing/Parse.antt =====
-- The text forms of networks, ports, outbounds and names. `parse_ip` stands for the parser of
-- `std::net::IpAddr`.
use aerion.Base.{
  ℕ, Bool, ◌||◌, Option, none, some, [], ◌∷◌, ◌++◌, leb, if◌then◌else◌, is_empty, is_some, or_else,
  take, drop, bytes_beq, Result, ok, err, ◌>>=◌, ok_or,
}
use aerion.Base.Text.{
  Text, trim, ascii, eq_ignore_ascii_case, split_once, strip_prefix, to_ascii_lowercase,
}
use aerion.Net.{IpAddr, v4, v6}
use aerion.Base.Parse.{parse_uint}
use aerion.Routing.{
  RouteError, empty_value, invalid_value, needs_rule_set, IpCidr, PortRange, RouteDecision, proxy,
  direct, block, RouteNetwork, tcp, udp, dns, DomainMatcher, exact, suffix, keyword, dotless, regex,
  normalize_domain, route_set_name,
}

-- `value.get(..n)` compared with an ASCII prefix of `n` bytes, whatever the case.
abbrev pub has_tag : Text → ℕ → Text → Bool
has_tag tag n value = eq_ignore_ascii_case (take n value) tag

-- `RouteDecision::from_outbound`
unfoldable pub from_outbound : Text → Result RouteError RouteDecision
unfolding trim
from_outbound text =
    let value = trim text in
    if is_empty value
    then err empty_value
    else if eq_ignore_ascii_case value (ascii "direct")
    then ok direct
    else if eq_ignore_ascii_case value (ascii "reject")
        || eq_ignore_ascii_case value (ascii "block")
    then ok block
    else ok (proxy value)

-- `RouteNetwork::parse`
unfoldable pub parse_network : Text → Result RouteError RouteNetwork
unfolding trim
parse_network text =
    let value = to_ascii_lowercase (trim text) in
    if bytes_beq value (ascii "tcp")
    then ok tcp
    else if bytes_beq value (ascii "udp")
    then ok udp
    else if bytes_beq value (ascii "dns")
    then ok dns
    else err invalid_value

-- `IpCidr::geoip_name`, `DomainMatcher::geosite_name`
unfoldable pub tagged_name : Text → ℕ → Text → Option Text
unfolding trim route_set_name
tagged_name tag n text =
    let value = trim text in
    if has_tag tag n value then some (route_set_name (drop n value)) else none

abbrev pub geoip_name : Text → Option Text
geoip_name = tagged_name (ascii "geoip:") 6

abbrev pub geosite_name : Text → Option Text
geosite_name = tagged_name (ascii "geosite:") 8

abbrev pub full_prefix : IpAddr → ℕ
full_prefix (v4 n) = 32
full_prefix (v6 n) = 128

-- The check of the prefix length.
abbrev pub checked_cidr : IpAddr × ℕ → Result RouteError IpCidr
checked_cidr (network, prefix) =
    if leb prefix (full_prefix network)
    then ok (record { network = network; prefix = prefix })
    else err invalid_value

abbrev pub with_prefix : Text → IpAddr → Result RouteError (IpAddr × ℕ)
with_prefix prefix address = do size ← ok_or (parse_uint 8 prefix) invalid_value; ok (address, size)

abbrev pub one_address : IpAddr → Result RouteError (IpAddr × ℕ)
one_address address = ok (address, full_prefix address)

module _ (parse_ip : Text → Option IpAddr) where
  unfoldable pub cidr_parts : Text → Result RouteError (IpAddr × ℕ)
  unfolding parse_uint
  cidr_parts value = elim (split_once b'/' value) [
    | some (network, prefix) ↦ ok_or (parse_ip network) invalid_value >>= with_prefix prefix
    | none ↦ ok_or (parse_ip value) invalid_value >>= one_address
  ]

  -- `IpCidr::parse`
  unfoldable pub parse_cidr : Text → Result RouteError IpCidr
  unfolding trim cidr_parts tagged_name
  parse_cidr text =
      let value = trim text in
      if is_empty value
      then err empty_value
      else if eq_ignore_ascii_case value (ascii "geoip:private") || is_some (geoip_name value)
      then err needs_rule_set
      else cidr_parts value >>= checked_cidr

abbrev pub ordered_range : ℕ → ℕ → Result RouteError PortRange
ordered_range start end =
    if leb start end then ok (record { start = start; end = end }) else err invalid_value

abbrev pub range_from : Text → ℕ → Result RouteError PortRange
range_from second start = ok_or (parse_uint 16 second) invalid_value >>= ordered_range start

abbrev pub port_range : Text × Text → Result RouteError PortRange
port_range ends = ok_or (parse_uint 16 ends.0) invalid_value >>= range_from ends.1

-- A single port, or two ends after a colon or a dash.
unfoldable pub ports_of : Text → Option ℕ → Result RouteError PortRange
ports_of value (some port) = ok (record { start = port; end = port })
ports_of value none =
    ok_or (or_else (split_once b':' value) (split_once b'-' value)) invalid_value >>= port_range

-- `PortRange::parse`
unfoldable pub parse_ports : Text → Result RouteError PortRange
unfolding trim parse_uint ports_of
parse_ports text =
    let value = trim text in
    if is_empty value then err empty_value else ports_of value (parse_uint 16 value)

-- `route_set_line`: what stands before a `#`, trimmed, unless it is empty.
unfoldable pub route_set_line : Text → Option Text
unfolding trim
route_set_line text =
    let line = trim (elim (split_once b'#' text) [ none ↦ text | some (front, back) ↦ front ]) in
    if is_empty line then none else some line

-- Regular expressions are compiled by the library: `none` where it refuses a pattern.
module _ {R : Type 0} (compile : Text → Option R) where
  abbrev pub compiled : Text → Result RouteError (Option (DomainMatcher R))
  compiled pattern = do r ← ok_or (compile pattern) invalid_value; ok (some (regex r))

  abbrev pub either_prefix : Text → Text → Text → Option Text
  either_prefix a b value =
      or_else (strip_prefix (a ++ (b':' ∷ [])) value) (strip_prefix (b ++ (b':' ∷ [])) value)

  -- The last forms of `from_prefixed`.
  unfoldable pub from_unprefixed : Text → Result RouteError (Option (DomainMatcher R))
  unfolding normalize_domain tagged_name
  from_unprefixed value = elim (strip_prefix (ascii "*.") value) [
    | some d ↦ ok (some (suffix (normalize_domain d)))
    | none ↦
        if is_some (geosite_name value) || has_tag (ascii "ext:") 4 value
        then err needs_rule_set
        else ok (some (exact (normalize_domain value)))
  ]

  unfoldable pub from_worded : Text → Result RouteError (Option (DomainMatcher R))
  unfolding trim from_unprefixed
  from_worded value = elim (strip_prefix (ascii "keyword:") value) [
    | some k ↦ ok (some (keyword (to_ascii_lowercase (trim k))))
    | none ↦ elim (strip_prefix (ascii "dotless:") value) [
      | some k ↦ ok (some (dotless (to_ascii_lowercase (trim k))))
      | none ↦ from_unprefixed value
    ]
  ]

  -- `DomainMatcher::from_prefixed`
  unfoldable pub from_prefixed : Text → Result RouteError (Option (DomainMatcher R))
  unfolding trim normalize_domain from_worded
  from_prefixed text =
      let value = trim text in
      if is_empty value
      then ok none
      else elim (either_prefix (ascii "regexp") (ascii "regex") value) [
        | some pattern ↦ compiled pattern
        | none ↦ elim (either_prefix (ascii "full") (ascii "domain_full") value) [
          | some d ↦ ok (some (exact (normalize_domain d)))
          | none ↦ elim (either_prefix (ascii "domain") (ascii "suffix") value) [
            | some d ↦ ok (some (suffix (normalize_domain d)))
            | none ↦ from_worded value
          ]
        ]
      ]
