-- ===== src/Routing/Decision.antt =====
-- The decision of a table: that of its first rule that matches.
use aerion.Base.{
  ◌≡◌, refl, sym, ap, ◌∙◌, ◌⊎◌, inl, inr, Bool, true, false, ◌&&◌, List, [], ◌∷◌, arith, All,
  is_empty, ok, Bool-cases, bytes_eq,
}
use aerion.Base.Text.{Text}
use aerion.Base.Search.{any}
use aerion.Protocol.Target.{ProxyTarget, ip, domain}
use aerion.Routing.{
  RouteRule, RouteTable, RouteNetwork, missing_geosite_set, missing_geoip_set, covers,
  normalize_domain, domain_matches, match_domain, match_address, match_ip, try_matches,
}
use aerion.Routing.{RouteDecision, decide_rules, try_decide}
use aerion.Routing.Rules.{
  Present, match_sets-Present, RuleMatches, name_test, address_test, network_test, port_test,
  rule_test, reflect_rule,
}

differ : ◌≡◌ {A = Bool} false true → ⊥
differ e = cc

module _ {R : Type 0} (is_match : R → Text → Bool) (table : RouteTable R) where
  -- The table has the sets that a rule names.
  abbrev pub IsServed : RouteRule R → Type 0
  IsServed rule =
      Present table.geosite_sets rule.geosite_sets × Present table.geoip_sets rule.geoip_sets

  match_domain_test :
      (rule : RouteRule R) (target : ProxyTarget)
      → IsServed rule
      → match_domain is_match rule table target ≡ ok (name_test is_match rule table target)
  unfolding match_domain name_test
  match_domain_test rule (ip a) h = refl
  match_domain_test rule (domain name port) h =
      let host = normalize_domain name in
      elim (Bool-cases (is_empty rule.domains && is_empty rule.geosite_sets)) [
        | inl e ↦ rw e refl
        | inr e ↦ rw e (
            match_sets-Present missing_geosite_set (domain_matches is_match host) table.geosite_sets
              (any (domain_matches is_match host) rule.domains) rule.geosite_sets h.0)
      ]

  match_ip_test :
      (rule : RouteRule R) (target : ProxyTarget)
      → IsServed rule
      → match_ip is_match rule table target ≡ ok (address_test is_match rule table target)
  unfolding match_ip match_address address_test
  match_ip_test rule (domain name port) h = ground arith
  match_ip_test rule (ip a) h = ground (
    arith,
    match_sets-Present missing_geoip_set (covers a.ip) table.geoip_sets false rule.geoip_sets h.1,
  )

  -- The code's chain of early returns is the conjunction of its tests.
  try_matches_test :
      (rule : RouteRule R) (target : ProxyTarget) (network : RouteNetwork)
      → IsServed rule
      → try_matches is_match rule table target network
        ≡ ok (rule_test is_match rule table target network)
  unfolding try_matches rule_test network_test port_test
  try_matches_test rule target network h =
      ground (arith, match_domain_test rule target h, match_ip_test rule target h)

  -- The decision is that of the first rule that matches, and the default if none does.
  abbrev pub FirstMatch : ProxyTarget → RouteNetwork → List (RouteRule R) → RouteDecision → Type 0
  FirstMatch target network [] d = d ≡ table.default
  FirstMatch target network (rule ∷ rules) d =
      (RuleMatches is_match rule table target network × (d ≡ rule.action))
      ⊎ ((RuleMatches is_match rule table target network → ⊥) × FirstMatch target network rules d)

  decide_rules-FirstMatch :
      (target : ProxyTarget) (network : RouteNetwork) (rules : List (RouteRule R))
      → All IsServed rules
      → (d : RouteDecision) × (decide_rules is_match table target network rules ≡ ok d)
        × FirstMatch target network rules d
  unfolding decide_rules
  decide_rules-FirstMatch target network [] h = (table.default, refl, refl)
  decide_rules-FirstMatch target network (rule ∷ rules) h =
      let test = try_matches_test rule target network h.0 in
      let reflects = reflect_rule is_match rule table target network in
      elim (Bool-cases (rule_test is_match rule table target network)) [
        | inl e ↦ (
          rule.action,
          (let found = test ∙ ap ok e in rw (found, decide_rules) refl),
          inl (reflects.sound e, refl),
        )
        | inr e ↦
            let (d, rest, first) = decide_rules-FirstMatch target network rules h.1 in
            let found = test ∙ ap ok e in
            (
              d,
              rw (found, decide_rules) rest,
              inr (λ m. differ (sym e ∙ reflects.complete m), first),
            )
      ]

  -- When the table has every set that its rules name: `try_decide` does not fail, and it decides by the
  -- first rule of which the network, the port, the name and the address conditions all hold for the
  -- target, and by the default if there is none.
  pub try_decide-FirstMatch :
      (target : ProxyTarget) (network : RouteNetwork)
      → All IsServed table.rules
      → (d : RouteDecision) × (try_decide is_match table target network ≡ ok d)
        × FirstMatch target network table.rules d
  unfolding try_decide
  try_decide-FirstMatch target network h = decide_rules-FirstMatch target network table.rules h
