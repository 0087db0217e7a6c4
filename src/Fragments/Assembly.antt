-- ===== src/Fragments/Assembly.antt =====
-- The fragments of one packet in any order of arrival.
use aerion.Base.{
  ℕ, zero, suc, ◌+◌, ◌-◌, ◌≤◌, ◌<◌, ◌≡◌, refl, sym, ap, ◌⊎◌, inl, inr, false, Option, none, some,
  List, [], ◌∷◌, ◌++◌, arith, ◌==◌, length, get_elem?, get_or, set, replicate, contains, nat_eq,
  Result, ok, length-append,
}
use aerion.Base.Text.{Text}
use aerion.Fragments.{
  FragmentPayload, FragmentError, new_payload, collect, store, insert, max_udp_payload,
}

-- The packet that was split into `pieces`.
abbrev pub joined : List Text → Text
joined [] = []
joined (p ∷ ps) = p ++ joined ps

-- A chunk that is present is the piece of its place.
abbrev pub Agree : List (Option Text) → List Text → Type 0
Agree [] [] = Unit {0}
Agree [] (p ∷ ps) = ⊥
Agree (c ∷ cs) [] = ⊥
Agree (none ∷ cs) (p ∷ ps) = Agree cs ps
Agree (some c ∷ cs) (p ∷ ps) = (c ≡ p) × Agree cs ps

abbrev pub missing : List (Option Text) → ℕ
missing [] = 0
missing (none ∷ cs) = suc (missing cs)
missing (some c ∷ cs) = missing cs

abbrev stored : List (Option Text) → ℕ
stored [] = 0
stored (none ∷ cs) = stored cs
stored (some c ∷ cs) = length c + stored cs

-- The state after some of the pieces have arrived.
pub record IsPartial (pieces : List Text) (f : FragmentPayload) : Type 0 where
  pub agree : Agree f.chunks pieces
  pub remaining : f.remaining ≡ missing f.chunks
  pub size : f.length ≡ stored f.chunks
  pub fits : length (joined pieces) ≤ max_udp_payload

-- What putting piece `i` at its free place does to the chunks.
record Put (cs : List (Option Text)) (ps : List Text) (i : ℕ) : Type 0 where
  agree : Agree (set cs i (some (get_or ps i []))) ps
  missing_less : missing cs ≡ suc (missing (set cs i (some (get_or ps i []))))
  stored_more : stored (set cs i (some (get_or ps i []))) ≡ stored cs + length (get_or ps i [])

put :
    (cs : List (Option Text)) (ps : List Text) (i : ℕ)
    → Agree cs ps
    → get_elem? cs i ≡ some none
    → Put cs ps i
put [] ps i a h = cc
put (c ∷ cs) [] i a h = absurd a
put (none ∷ cs) (p ∷ ps) zero a h = record {
  agree = (refl, a);
  missing_less = refl;
  stored_more = omega arith;
}
put (some c ∷ cs) (p ∷ ps) zero a h = cc
put (none ∷ cs) (p ∷ ps) (suc i) a h =
    let r = put cs ps i a h in
    record { agree = r.agree; missing_less = ap suc r.missing_less; stored_more = r.stored_more }
put (some c ∷ cs) (p ∷ ps) (suc i) a h =
    let r = put cs ps i a.1 h in
    record {
      agree = (a.0, r.agree);
      missing_less = r.missing_less;
      stored_more = omega (arith, r.stored_more);
    }

stored-le :
    (cs : List (Option Text)) (ps : List Text) → Agree cs ps → stored cs ≤ length (joined ps)
stored-le [] [] a = omega arith
stored-le [] (p ∷ ps) a = absurd a
stored-le (c ∷ cs) [] a = absurd a
stored-le (none ∷ cs) (p ∷ ps) a = omega (arith, stored-le cs ps a, length-append p (joined ps))
stored-le (some c ∷ cs) (p ∷ ps) a =
    omega (arith, stored-le cs ps a.1, length-append p (joined ps), ap length a.0)

collect-joined :
    (cs : List (Option Text)) (ps : List Text)
    → Agree cs ps
    → missing cs ≡ 0
    → collect cs ≡ joined ps
unfolding collect
collect-joined [] [] a h = refl
collect-joined [] (p ∷ ps) a h = absurd a
collect-joined (c ∷ cs) [] a h = absurd a
collect-joined (none ∷ cs) (p ∷ ps) a h = absurd (omega arith)
collect-joined (some c ∷ cs) (p ∷ ps) a h = cc (a.0, collect-joined cs ps a.1 h)

-- A piece that is still missing is accepted: the packet comes out whole if it was the last, and else
-- the state is that of one piece more.
pub insert-piece :
    (pieces : List Text) (f : FragmentPayload) (i : ℕ)
    → IsPartial pieces f
    → get_elem? f.chunks i ≡ some none
    → ((f.remaining ≡ 1) × ((insert f i (get_or pieces i [])).1 ≡ ok (some (joined pieces))))
      ⊎ ((1 < f.remaining)
          × (insert f i (get_or pieces i []) ≡ (
            record {
              chunks = set f.chunks i (some (get_or pieces i []));
              remaining = f.remaining - 1;
              length = f.length + length (get_or pieces i []);
            },
            ok none,
          )))
unfolding insert store
insert-piece pieces f i v free =
    let p = put f.chunks pieces i v.agree free in
    ground (
      arith,
      p.missing_less,
      p.stored_more,
      stored-le (set f.chunks i (some (get_or pieces i []))) pieces p.agree,
      collect-joined (set f.chunks i (some (get_or pieces i []))) pieces p.agree,
    )

-- The fragments arrive in the order of the given indices; the answers to each.
pub insert_all : List Text → FragmentPayload → List ℕ → List (Result FragmentError (Option Text))
insert_all pieces f [] = []
insert_all pieces f (i ∷ order) =
    let (f', answer) = insert f i (get_or pieces i []) in answer ∷ insert_all pieces f' order

-- The places that are still to come are free, and none comes twice.
abbrev pub AllFree : List (Option Text) → List ℕ → Type 0
AllFree cs [] = Unit {0}
AllFree cs (i ∷ order) =
    (get_elem? cs i ≡ some none) × (contains order i ≡ false) × AllFree cs order

-- The answers of a reassembly that succeeds with its last fragment and no sooner.
abbrev pub one_packet : Text → List ℕ → List (Result FragmentError (Option Text))
one_packet packet [] = []
one_packet packet (i ∷ []) = ok (some packet) ∷ []
one_packet packet (i ∷ j ∷ order) = ok none ∷ one_packet packet (j ∷ order)

get_elem?-set_other :
    (cs : List (Option Text)) (i j : ℕ) (v : Option Text)
    → (i == j) ≡ false
    → get_elem? (set cs i v) j ≡ get_elem? cs j
get_elem?-set_other [] i j v h = refl
get_elem?-set_other (c ∷ cs) zero zero v h = cc
get_elem?-set_other (c ∷ cs) zero (suc j) v h = refl
get_elem?-set_other (c ∷ cs) (suc i) zero v h = refl
get_elem?-set_other (c ∷ cs) (suc i) (suc j) v h = get_elem?-set_other cs i j v (ground arith)

pub AllFree-set :
    (cs : List (Option Text)) (i : ℕ) (v : Option Text) (order : List ℕ)
    → contains order i ≡ false
    → AllFree cs order
    → AllFree (set cs i v) order
AllFree-set cs i v [] h a = tt
AllFree-set cs i v (j ∷ order) h (free, once, a) =
    (ground (arith, get_elem?-set_other cs i j v), once, AllFree-set cs i v order (ground arith) a)

pub insert_piece-IsPartial :
    (pieces : List Text) (f : FragmentPayload) (i : ℕ)
    → IsPartial pieces f
    → get_elem? f.chunks i ≡ some none
    → IsPartial pieces (record {
      chunks = set f.chunks i (some (get_or pieces i []));
      remaining = f.remaining - 1;
      length = f.length + length (get_or pieces i []);
    })
insert_piece-IsPartial pieces f i v free =
    let p = put f.chunks pieces i v.agree free in
    record {
      agree = p.agree;
      remaining = omega (arith, v.remaining, p.missing_less);
      size = omega (arith, v.size, p.stored_more);
      fits = v.fits;
    }

-- The missing pieces of a packet of at most 65535 bytes, delivered in any order without repetition:
-- each but the last is accepted without a result, and the last yields the pieces joined in the order
-- of their indices.
pub insert_all-one_packet :
    (pieces : List Text) (f : FragmentPayload) (order : List ℕ)
    → IsPartial pieces f
    → AllFree f.chunks order
    → length order ≡ f.remaining
    → insert_all pieces f order ≡ one_packet (joined pieces) order
unfolding insert_all
insert_all-one_packet pieces f [] v a h = refl
insert_all-one_packet pieces f (i ∷ []) v a h = elim (insert-piece pieces f i v a.0) [
  | inl (last, e) ↦ ap (λ answer. answer ∷ []) e
  | inr (more, e) ↦ absurd (omega arith)
]
insert_all-one_packet pieces f (i ∷ j ∷ order) v a h = elim (insert-piece pieces f i v a.0) [
  | inl (last, e) ↦ absurd (omega arith)
  | inr (more, e) ↦ rw e (
      ap (◌∷◌ (ok none)) (
        insert_all-one_packet pieces
          (record {
            chunks = set f.chunks i (some (get_or pieces i []));
            remaining = f.remaining - 1;
            length = f.length + length (get_or pieces i []);
          })
          (j ∷ order) (insert_piece-IsPartial pieces f i v a.0)
          (AllFree-set f.chunks i (some (get_or pieces i [])) (j ∷ order) a.1 a.2) (omega arith)))
]

replicate-missing :
    (pieces : List Text)
    → Agree (replicate (length pieces) none) pieces
      × (missing (replicate (length pieces) none) ≡ length pieces)
      × (stored (replicate (length pieces) none) ≡ 0)
replicate-missing [] = (tt, refl, refl)
replicate-missing (p ∷ ps) = let (a, m, s) = replicate-missing ps in (a, ap suc m, s)

-- A new reassembly waits for all pieces of its packet.
pub new_payload-IsPartial :
    (pieces : List Text)
    → length (joined pieces) ≤ max_udp_payload
    → IsPartial pieces (new_payload (length pieces))
unfolding new_payload
new_payload-IsPartial pieces h =
    let (a, m, s) = replicate-missing pieces in
    record { agree = a; remaining = sym m; size = sym s; fits = h }
