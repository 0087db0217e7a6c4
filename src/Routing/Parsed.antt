-- ===== src/Routing/Parsed.antt =====
-- What the parsers of networks and ports let through, and what it then covers.
use aerion.Base.{
  ℕ, ◌^◌, ◌≤◌, ◌<◌, ◌≡◌, refl, subst, ◌↔◌, inl, inr, true, Option, none, some, arith, leb, leb→le,
  is_empty, or_else, ok, ◌>>=◌, ok_or, ok-parts, ok_injective, ok_or-parts, Bool-cases,
  Option-cases,
}
use aerion.Base.Text.{Text, trim, split_once}
use aerion.Base.Parse.{parse_uint, parse_uint-lt}
use aerion.Net.{IpAddr, v4, v6, IsIp}
use aerion.Routing.{RouteError, invalid_value, IpCidr, PortRange, covers}
use aerion.Routing.Cidr.{IsNetwork, InNetwork, cidr_contains_iff}
use aerion.Routing.Parse.{
  cidr_parts, with_prefix, one_address, range_from, ordered_range, parse_cidr, checked_cidr,
  parse_ports, ports_of, port_range,
}

checked_cidr-IsNetwork :
    (network : IpAddr) (prefix : ℕ) (c : IpCidr)
    → IsIp network
    → checked_cidr (network, prefix) ≡ ok c
    → IsNetwork c.network c.prefix
checked_cidr-IsNetwork (v4 n) prefix c h e = elim (Bool-cases (leb prefix 32)) [
  | inl f ↦
      subst (λ (c : IpCidr). IsNetwork c.network c.prefix)
        (ok_injective {E = RouteError} (rw f at e)) (h, leb→le prefix 32 f)
  | inr f ↦ (let wrong = rw f at e in absurd (ground (arith, wrong)))
]
checked_cidr-IsNetwork (v6 n) prefix c h e = elim (Bool-cases (leb prefix 128)) [
  | inl f ↦
      subst (λ (c : IpCidr). IsNetwork c.network c.prefix)
        (ok_injective {E = RouteError} (rw f at e)) (h, leb→le prefix 128 f)
  | inr f ↦ (let wrong = rw f at e in absurd (ground (arith, wrong)))
]

module _ (parse_ip : Text → Option IpAddr)
    (only_ips : (t : Text) (a : IpAddr) → parse_ip t ≡ some a → IsIp a) where
  cidr_parts-IsIp :
      (value : Text) (parts : IpAddr × ℕ) → cidr_parts parse_ip value ≡ ok parts → IsIp parts.0
  unfolding cidr_parts
  cidr_parts-IsIp value parts e = elim (Option-cases (split_once b'/' value)) [
    | inl q ↦
        let (a, e₁, got) =
          ok-parts one_address (ok_or (parse_ip value) invalid_value) (rw (q, cidr_parts) at e) in
        subst (λ (p : IpAddr × ℕ). IsIp p.0) (ok_injective {E = RouteError} e₁)
          (only_ips value a (ok_or-parts (parse_ip value) invalid_value got))
    | inr (halves, q) ↦
        let (a, e₁, got) =
          ok-parts (with_prefix halves.1) (ok_or (parse_ip halves.0) invalid_value)
            (rw (q, cidr_parts) at e) in
        let (size, e₂, _) =
          ok-parts (λ (size : ℕ). ok (a, size)) (ok_or (parse_uint 8 halves.1) invalid_value) e₁ in
        subst (λ (p : IpAddr × ℕ). IsIp p.0) (ok_injective {E = RouteError} e₂)
          (only_ips halves.0 a (ok_or-parts (parse_ip halves.0) invalid_value got))
  ]

  accepted :
      (value : Text) (c : IpCidr)
      → (cidr_parts parse_ip value >>= checked_cidr) ≡ ok c
      → IsNetwork c.network c.prefix
  accepted value c e =
      let (parts, e₁, got) = ok-parts checked_cidr (cidr_parts parse_ip value) e in
      checked_cidr-IsNetwork parts.0 parts.1 c (cidr_parts-IsIp value parts got) e₁

  parse_cidr-IsNetwork :
      (text : Text) (c : IpCidr) → parse_cidr parse_ip text ≡ ok c → IsNetwork c.network c.prefix
  unfolding parse_cidr
  parse_cidr-IsNetwork text c e = grind (arith, accepted (trim text) c)

  -- A network that `IpCidr::parse` accepts covers exactly the addresses of its family that agree with
  -- it in the first `prefix` bits; the address parser is taken to return only addresses.
  pub parse_cidr-covers :
      (text : Text) (c : IpCidr) (address : IpAddr)
      → parse_cidr parse_ip text ≡ ok c
      → IsIp address
      → (covers address c ≡ true) ↔ InNetwork c.network c.prefix address
  parse_cidr-covers text c address e ha =
      cidr_contains_iff c.network c.prefix address (parse_cidr-IsNetwork text c e) ha

port_range_bounds :
    (ends : Text × Text) (r : PortRange)
    → port_range ends ≡ ok r
    → (r.start ≤ r.end) × (r.end < 2 ^ 16)
port_range_bounds ends r e =
    let (start, e₁, _) =
      ok-parts (range_from ends.1) (ok_or (parse_uint 16 ends.0) invalid_value) e in
    let (end, e₂, got) =
      ok-parts (ordered_range start) (ok_or (parse_uint 16 ends.1) invalid_value) e₁ in
    let small =
      parse_uint-lt 16 ends.1 end (omega arith)
        (ok_or-parts (parse_uint 16 ends.1) invalid_value got) in
    ground (arith, e₂, small)

ports_of_bounds :
    (value : Text) (port? : Option ℕ) (r : PortRange)
    → ((port : ℕ) → port? ≡ some port → port < 2 ^ 16)
    → ports_of value port? ≡ ok r
    → (r.start ≤ r.end) × (r.end < 2 ^ 16)
unfolding ports_of
ports_of_bounds value (some port) r small e = ground (arith, small port refl, e)
ports_of_bounds value none r small e =
    let split = or_else (split_once b':' value) (split_once b'-' value) in
    let (ends, e₁, _) = ok-parts port_range (ok_or split invalid_value) e in
    port_range_bounds ends r e₁

-- A port range that `PortRange::parse` accepts is in order and holds ports of 16 bits.
pub parse_ports_bounds :
    (text : Text) (r : PortRange) → parse_ports text ≡ ok r → (r.start ≤ r.end) × (r.end < 2 ^ 16)
unfolding parse_ports
parse_ports_bounds text r e =
    let value = trim text in
    let bounds =
      ports_of_bounds value (parse_uint 16 value) r
        (λ port. parse_uint-lt 16 value port (omega arith)) in
    elim (Bool-cases (is_empty value)) [
      | inl empty ↦ (let wrong = rw empty at e in absurd (ground (arith, wrong)))
      | inr full ↦ bounds (rw full at e)
    ]
