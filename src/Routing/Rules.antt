-- ===== src/Routing/Rules.antt =====
-- When a rule matches, stated without the code's order of tests.
use aerion.Base.{
  ℕ, ◌≤◌, ◌≡◌, refl, ap, ◌∙◌, subst, ◌⊎◌, inl, inr, Bool, true, false, not, ◌&&◌, ◌||◌, Option,
  none, some, List, [], ◌∷◌, arith, All, is_empty, lookup, ok, Option-cases, is_some, bytes_eq,
}
use aerion.Base.Text.{Text}
use aerion.Base.Search.{any, Any}
use aerion.Base.Reflect.{
  Reflects, reflect_and, reflect_or, reflect_implies, reflect_bool, reflect_not, reflect_empty,
  reflect_any, reflect_optional,
}
use aerion.Protocol.Target.{ProxyTarget, ip, domain}
use aerion.Routing.{
  RouteRule, RouteTable, RouteNetwork, tcp, udp, dns, network_beq, PortRange, IpCidr, DomainMatcher,
  RouteError, covers, port_contains, target_port, is_private_ip, normalize_domain, match_sets,
  domain_matches,
}
use aerion.Routing.Domains.{DomainMatches, domain_matches_sound, domain_matches_complete}

or_assoc : (a b c : Bool) → ((a || b) || c) ≡ (a || (b || c))
or_assoc true b c = refl
or_assoc false b c = refl

module _ {A : Type 0} where
  abbrev pub AnyOf : (A → Type 0) → Option (List A) → Type 0
  AnyOf P none = ⊥
  AnyOf P (some items) = Any P items

  abbrev pub any_of : (A → Bool) → Option (List A) → Bool
  any_of test none = false
  any_of test (some items) = any test items

  -- A named set holds an item that satisfies the predicate.
  abbrev pub InSets : (A → Type 0) → List (Text × List A) → List Text → Type 0
  InSets P sets = Any (λ name. AnyOf P (lookup name sets))

  abbrev pub in_sets : (A → Bool) → List (Text × List A) → List Text → Bool
  in_sets test sets = any (λ name. any_of test (lookup name sets))

  -- The table has every set that the rule names.
  abbrev pub Present : List (Text × List A) → List Text → Type 0
  Present sets = All (λ name. is_some (lookup name sets) ≡ true)

  reflect_any_of :
      (P : A → Type 0) (p : A → Bool)
      → ((x : A) → Reflects (p x) (P x))
      → (found : Option (List A)) → Reflects (any_of p found) (AnyOf P found)
  reflect_any_of P p each none = record { sound = λ e. cc; complete = λ e. absurd e }
  reflect_any_of P p each (some items) = reflect_any P p each items

  reflect_sets :
      (P : A → Type 0) (p : A → Bool)
      → ((x : A) → Reflects (p x) (P x))
      → (sets : List (Text × List A)) (names : List Text)
      → Reflects (in_sets p sets names) (InSets P sets names)
  reflect_sets P p each sets names =
      reflect_any (λ name. AnyOf P (lookup name sets)) (λ name. any_of p (lookup name sets))
        (λ name. reflect_any_of P p each (lookup name sets)) names

  pub match_sets-Present :
      (missing : RouteError) (test : A → Bool) (sets : List (Text × List A)) (matched : Bool)
      (names : List Text)
      → Present sets names
      → match_sets missing test sets matched names ≡ ok (matched || in_sets test sets names)
  unfolding match_sets
  match_sets-Present missing test sets matched [] h = ground arith
  match_sets-Present missing test sets matched (name ∷ names) h =
      elim (Option-cases (lookup name sets)) [
        | inl e ↦ (let wrong = rw e at (h.0) in cc)
        | inr (items, e) ↦
            rw (e, match_sets)
              (match_sets-Present missing test sets (matched || any test items) names h.1
                ∙ ap ok (or_assoc matched (any test items) (in_sets test sets names)))
      ]

same_network : (n m : RouteNetwork) → Reflects (network_beq n m) (n ≡ m)
same_network n m = record {
  sound = equal n m;
  complete = λ e. subst (λ k. network_beq n k ≡ true) e (equal_refl n);
}
  where
    equal : (n m : RouteNetwork) → network_beq n m ≡ true → n ≡ m
    equal tcp tcp h = refl
    equal tcp udp h = cc
    equal tcp dns h = cc
    equal udp tcp h = cc
    equal udp udp h = refl
    equal udp dns h = cc
    equal dns tcp h = cc
    equal dns udp h = cc
    equal dns dns h = refl

    equal_refl : (n : RouteNetwork) → network_beq n n ≡ true
    equal_refl tcp = refl
    equal_refl udp = refl
    equal_refl dns = refl

module _ {R : Type 0} (is_match : R → Text → Bool) where
  reflect_domain :
      (host : Text) (m : DomainMatcher R)
      → Reflects (domain_matches is_match host m) (DomainMatches is_match host m)
  reflect_domain host m = record {
    sound = domain_matches_sound is_match host m;
    complete = domain_matches_complete is_match host m;
  }

  -- The network, the port, the name and the address of a target, each against what the rule asks for.
  -- A rule that asks for names accepts no address, and the other way round.
  abbrev pub RightNetwork : RouteRule R → RouteNetwork → Type 0
  RightNetwork rule network = (rule.networks ≡ []) ⊎ Any (λ n. network ≡ n) rule.networks

  abbrev pub RightPort : RouteRule R → ℕ → Type 0
  RightPort rule port =
      (rule.ports ≡ []) ⊎ Any (λ (r : PortRange). (r.start ≤ port) × (port ≤ r.end)) rule.ports

  abbrev pub RightName : RouteRule R → RouteTable R → ProxyTarget → Type 0
  RightName rule table (ip a) = (rule.domains ≡ []) × (rule.geosite_sets ≡ [])
  RightName rule table (domain name port) =
      ((rule.domains ≡ []) × (rule.geosite_sets ≡ []))
      ⊎ (Any (DomainMatches is_match (normalize_domain name)) rule.domains
          ⊎ InSets (DomainMatches is_match (normalize_domain name)) table.geosite_sets
              rule.geosite_sets)

  abbrev pub RightAddress : RouteRule R → RouteTable R → ProxyTarget → Type 0
  RightAddress rule table (domain name port) =
      (rule.ip_is_private ≡ false) × ((rule.ip_cidrs ≡ []) × (rule.geoip_sets ≡ []))
  RightAddress rule table (ip a) =
      (rule.ip_is_private ≡ true → is_private_ip a.ip ≡ true)
      × (((rule.ip_cidrs ≡ []) ⊎ Any (λ c. covers a.ip c ≡ true) rule.ip_cidrs)
          × ((rule.geoip_sets ≡ [])
              ⊎ InSets (λ c. covers a.ip c ≡ true) table.geoip_sets rule.geoip_sets))

  pub record RuleMatches (rule : RouteRule R) (table : RouteTable R) (target : ProxyTarget)
      (network : RouteNetwork) : Type 0 where
    pub right_network : RightNetwork rule network
    pub right_port : RightPort rule (target_port target)
    pub right_name : RightName rule table target
    pub right_address : RightAddress rule table target

  -- The tests of the code as one test.
  unfoldable pub name_test : RouteRule R → RouteTable R → ProxyTarget → Bool
  name_test rule table (ip a) = is_empty rule.domains && is_empty rule.geosite_sets
  name_test rule table (domain name port) =
      let host = normalize_domain name in
      (is_empty rule.domains && is_empty rule.geosite_sets)
      || (any (domain_matches is_match host) rule.domains
          || in_sets (domain_matches is_match host) table.geosite_sets rule.geosite_sets)

  unfoldable pub address_test : RouteRule R → RouteTable R → ProxyTarget → Bool
  address_test rule table (domain name port) =
      not rule.ip_is_private && (is_empty rule.ip_cidrs && is_empty rule.geoip_sets)
  address_test rule table (ip a) =
      (not rule.ip_is_private || is_private_ip a.ip)
      && ((is_empty rule.ip_cidrs || any (covers a.ip) rule.ip_cidrs)
          && (is_empty rule.geoip_sets || in_sets (covers a.ip) table.geoip_sets rule.geoip_sets))

  unfoldable pub network_test : RouteRule R → RouteNetwork → Bool
  network_test rule network = is_empty rule.networks || any (network_beq network) rule.networks

  unfoldable pub port_test : RouteRule R → ℕ → Bool
  port_test rule port = is_empty rule.ports || any (port_contains port) rule.ports

  reflect_name :
      (rule : RouteRule R) (table : RouteTable R) (target : ProxyTarget)
      → Reflects (name_test rule table target) (RightName rule table target)
  unfolding name_test
  reflect_name rule table (ip a) =
      reflect_and (reflect_empty rule.domains) (reflect_empty rule.geosite_sets)
  reflect_name rule table (domain name port) =
      let host = normalize_domain name in
      let P = DomainMatches is_match host in
      let p = domain_matches is_match host in
      reflect_or (reflect_and (reflect_empty rule.domains) (reflect_empty rule.geosite_sets)) (
        reflect_or (reflect_any P p (reflect_domain host) rule.domains)
          (reflect_sets P p (reflect_domain host) table.geosite_sets rule.geosite_sets))

  reflect_address :
      (rule : RouteRule R) (table : RouteTable R) (target : ProxyTarget)
      → Reflects (address_test rule table target) (RightAddress rule table target)
  unfolding address_test
  reflect_address rule table (domain name port) =
      reflect_and (reflect_not rule.ip_is_private)
        (reflect_and (reflect_empty rule.ip_cidrs) (reflect_empty rule.geoip_sets))
  reflect_address rule table (ip a) =
      let P = λ (c : IpCidr). covers a.ip c ≡ true in
      let each = λ (c : IpCidr). reflect_bool (covers a.ip c) in
      reflect_and
        (reflect_implies (reflect_bool rule.ip_is_private) (reflect_bool (is_private_ip a.ip)))
        (reflect_and
          (reflect_optional rule.ip_cidrs (reflect_any P (covers a.ip) each rule.ip_cidrs))
          (reflect_optional rule.geoip_sets
            (reflect_sets P (covers a.ip) each table.geoip_sets rule.geoip_sets)))

  reflect_network :
      (rule : RouteRule R) (network : RouteNetwork)
      → Reflects (network_test rule network) (RightNetwork rule network)
  unfolding network_test
  reflect_network rule network =
      reflect_optional rule.networks
        (reflect_any (λ n. network ≡ n) (network_beq network) (same_network network) rule.networks)

  reflect_port :
      (rule : RouteRule R) (port : ℕ) → Reflects (port_test rule port) (RightPort rule port)
  unfolding port_test
  reflect_port rule port = reflect_optional rule.ports (
      reflect_any (λ (r : PortRange). (r.start ≤ port) × (port ≤ r.end)) (port_contains port)
        (λ r. record { sound = λ e. ground (arith, e); complete = λ h. ground (arith, h) })
        rule.ports)

  unfoldable pub rule_test : RouteRule R → RouteTable R → ProxyTarget → RouteNetwork → Bool
  rule_test rule table target network =
      (network_test rule network && port_test rule (target_port target))
      && (name_test rule table target && address_test rule table target)

  pub reflect_rule :
      (rule : RouteRule R) (table : RouteTable R) (target : ProxyTarget) (network : RouteNetwork)
      → Reflects (rule_test rule table target network) (RuleMatches rule table target network)
  unfolding rule_test
  reflect_rule rule table target network =
      let all =
        reflect_and
          (reflect_and (reflect_network rule network) (reflect_port rule (target_port target)))
          (reflect_and (reflect_name rule table target) (reflect_address rule table target)) in
      record {
        sound = λ e.
            let found = all.sound e in
            record {
              right_network = found.0.0;
              right_port = found.0.1;
              right_name = found.1.0;
              right_address = found.1.1;
            };
        complete =
            λ m. all.complete ((m.right_network, m.right_port), (m.right_name, m.right_address));
      }
