-- ===== src/Routing/Domains.antt =====
-- What each kind of domain matcher accepts.
use aerion.Base.{
  ◌≡◌, refl, sym, ◌∙◌, subst, ◌↔◌, ◌⊎◌, inl, inr, Bool, true, [], ◌∷◌, ◌++◌, arith, bytes_beq,
  bytes_beq-eq, bytes_beq_refl, Bool-cases,
}
use aerion.Base.Text.{Text}
use aerion.Base.Search.{
  ends_with, ends_with-split, ends_with-append, has_part, has_part-split, has_part-append,
}
use aerion.Routing.{DomainMatcher, exact, suffix, keyword, dotless, regex, domain_matches}

-- The part stands somewhere in the text.
abbrev pub Contains : Text → Text → Type 0
Contains part s = (front back : Text) × (s ≡ front ++ (part ++ back))

has_part_iff : (part s : Text) → (has_part part s ≡ true) ↔ Contains part s
has_part_iff part s = (
  has_part-split part s,
  λ (front, back, e). subst (λ t. has_part part t ≡ true) (sym e) (has_part-append front part back),
)

module _ {R : Type 0} (is_match : R → Text → Bool) where
  -- The host is the domain, or a name below it, or contains the word, or contains it and has no dot.
  abbrev pub DomainMatches : Text → DomainMatcher R → Type 0
  DomainMatches host (exact expected) = host ≡ expected
  DomainMatches host (suffix s) = (host ≡ s) ⊎ ((front : Text) × (host ≡ front ++ (b'.' ∷ s)))
  DomainMatches host (keyword k) = Contains k host
  DomainMatches host (dotless k) = (Contains (b'.' ∷ []) host → ⊥) × Contains k host
  DomainMatches host (regex r) = is_match r host ≡ true

  pub domain_matches_sound :
      (host : Text) (m : DomainMatcher R)
      → domain_matches is_match host m ≡ true
      → DomainMatches host m
  unfolding domain_matches
  domain_matches_sound host (exact expected) h = bytes_beq-eq host expected h
  domain_matches_sound host (suffix s) h = elim (Bool-cases (bytes_beq host s)) [
    | inl e ↦ inl (bytes_beq-eq host s e)
    | inr e ↦ inr (ends_with-split (b'.' ∷ s) host (rw e at h))
  ]
  domain_matches_sound host (keyword k) h = has_part-split k host h
  domain_matches_sound host (dotless k) h = elim (Bool-cases (has_part (b'.' ∷ []) host)) [
    | inl e ↦ (let wrong = rw e at h in absurd (ground (arith, wrong)))
    | inr e ↦ (
      λ dot.
          (let wrong = sym e ∙ (has_part_iff (b'.' ∷ []) host).1 dot in
            absurd (ground (arith, wrong))),
      has_part-split k host (rw e at h),
    )
  ]
  domain_matches_sound host (regex r) h = h

  pub domain_matches_complete :
      (host : Text) (m : DomainMatcher R)
      → DomainMatches host m
      → domain_matches is_match host m ≡ true
  unfolding domain_matches
  domain_matches_complete host (exact expected) h =
      subst (λ t. bytes_beq host t ≡ true) h (bytes_beq_refl host)
  domain_matches_complete host (suffix s) (inl h) =
      let same = subst (λ t. bytes_beq host t ≡ true) h (bytes_beq_refl host) in rw same refl
  domain_matches_complete host (suffix s) (inr (front, h)) =
      let below : ends_with (b'.' ∷ s) host ≡ true =
        subst (λ t. ends_with (b'.' ∷ s) t ≡ true) (sym h) (ends_with-append front (b'.' ∷ s)) in
      ground (arith, below)
  domain_matches_complete host (keyword k) h = (has_part_iff k host).1 h
  domain_matches_complete host (dotless k) (undotted, h) =
      elim (Bool-cases (has_part (b'.' ∷ []) host)) [
        | inl e ↦ absurd (undotted ((has_part_iff (b'.' ∷ []) host).0 e))
        | inr e ↦ rw e ((has_part_iff k host).1 h)
      ]
  domain_matches_complete host (regex r) h = h
