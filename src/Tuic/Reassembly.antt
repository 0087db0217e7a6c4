-- ===== src/Tuic/Reassembly.antt =====
-- The reassembly of a packet of several fragments, step by step.
use aerion.Base.{
  ℕ, zero, suc, ◌+◌, ◌-◌, ◌≤◌, ◌<◌, ◌≡◌, refl, ◌∙◌, ◌⊎◌, inl, inr, true, false, Option, none, some,
  List, [], ◌∷◌, append-nil, arith, ◌==◌, if◌then◌else◌, length, length-append, length-set,
  length-replicate, get_elem?, get_or, set, replicate, is_some, lookup, insert, retain, contains,
  pair_eq, nat_eq, lookup-insert, lookup-remove, lookup-retain_kept, length-retain-le, beq_refl,
  Result, ok, err, subst, Bool-cases,
}
use aerion.Base.Text.{Text}
use aerion.Fragments.{FragmentPayload, FragmentError, new_payload, count, max_udp_payload}
use aerion.Fragments as Fragments
use aerion.Fragments.Assembly.{
  joined, IsPartial, AllFree, insert-piece, insert_piece-IsPartial, AllFree-set,
  new_payload-IsPartial,
}
use aerion.Protocol.Target.{ProxyTarget}
use aerion.Tuic.{TuicPacketCommand, TuicPacket, TuicFragmentBuffer, Pending, max_pending_packets}
use aerion.Tuic.Receive.{is_recent, entry_or_new, finish, add_fragment, push_fragment}
use aerion.Tuic.Split.{command}

abbrev pub key_of : TuicPacketCommand → ℕ × ℕ
key_of p = (p.assoc_id, p.packet_id)

module _ (key : ℕ × ℕ) (b : TuicFragmentBuffer) where
  finish_other :
      (other : ℕ × ℕ) (target : Option ProxyTarget) (pending : Pending)
      (answer : Result FragmentError (Option Text))
      → pair_eq.eq other key ≡ false
      → lookup key pending ≡ some b
      → lookup key (finish other target pending answer).0 ≡ some b
  finish_other other target pending (err e) h found = found
  finish_other other target pending (ok none) h found = found
  finish_other other none pending (ok (some payload)) h found = found
  finish_other other (some target) pending (ok (some payload)) h found =
      lookup-remove other key pending ∙ ground (arith, h, found)

  insert_other :
      (other : ℕ × ℕ) (buffer : TuicFragmentBuffer) (pending : Pending)
      → pair_eq.eq other key ≡ false
      → lookup key pending ≡ some b
      → lookup key (insert other buffer pending) ≡ some b
  insert_other other buffer pending h found =
      lookup-insert other key buffer pending ∙ ground (arith, h, found)

  add_fragment_other :
      (pending : Pending) (p : TuicPacketCommand) (buffer : TuicFragmentBuffer)
      → pair_eq.eq (key_of p) key ≡ false
      → lookup key pending ≡ some b
      → lookup key (add_fragment p pending buffer).0 ≡ some b
  unfolding add_fragment
  add_fragment_other pending p buffer other found =
      elim (Bool-cases (count buffer.fragments == p.frag_total)) [
        | inr e ↦ rw (e, add_fragment) (insert_other (key_of p) buffer pending other found)
        | inl e ↦
            let added = Fragments.insert buffer.fragments p.frag_id p.payload in
            let target = if p.frag_id == 0 then p.target else buffer.target in
            let updated : TuicFragmentBuffer = record {
              target = target;
              created_at = buffer.created_at;
              fragments = added.0;
            } in
            rw (e, add_fragment)
              (finish_other (key_of p) target (insert (key_of p) updated pending) added.1 other
                (insert_other (key_of p) updated pending other found))
      ]

  -- A fragment of another packet leaves a buffer as it is, unless the buffer is too old.
  pub push_fragment_other :
      (now : ℕ) (pending : Pending) (p : TuicPacketCommand)
      → pair_eq.eq (p.assoc_id, p.packet_id) key ≡ false
      → lookup key pending ≡ some b
      → is_recent now b ≡ true
      → lookup key (push_fragment now pending p).0 ≡ some b
  unfolding push_fragment
  push_fragment_other now pending p other found recent =
      let live = retain (is_recent now) pending in
      let kept = lookup-retain_kept (is_recent now) key b pending found recent in
      let buffer = entry_or_new now p.frag_total (lookup (key_of p) live) in
      ground (arith, found, kept, add_fragment_other live p buffer other kept)

module _ (assoc_id packet_id max_frame_len : ℕ) (target : ProxyTarget) (pieces : List Text) where
  abbrev pub key : ℕ × ℕ
  key = (assoc_id, packet_id)

  -- The fragment of the piece with an index.
  abbrev pub fragment : ℕ → TuicPacketCommand
  fragment i =
      command assoc_id packet_id (length pieces) max_frame_len target i (get_or pieces i [])

  -- The packet that the fragments make up.
  abbrev pub packet : TuicPacket
  packet = record { assoc_id = assoc_id; target = target; payload = joined pieces }

  -- A buffer that waits for the pieces of the given indices. It has the address unless the first
  -- piece is among them.
  pub record Waits (b : TuicFragmentBuffer) (order : List ℕ) : Type 0 where
    pub partial : IsPartial pieces b.fragments
    pub places : length b.fragments.chunks ≡ length pieces
    pub free : AllFree b.fragments.chunks order
    pub left : length order ≡ b.fragments.remaining
    pub addressed : contains order 0 ≡ false → b.target ≡ some target

  pub new_buffer-Waits :
      (now : ℕ) (order : List ℕ)
      → length (joined pieces) ≤ max_udp_payload
      → AllFree (replicate (length pieces) none) order
      → length order ≡ length pieces
      → contains order 0 ≡ true
      → Waits (entry_or_new now (length pieces) none) order
  unfolding new_payload
  new_buffer-Waits now order h free whole has_first = record {
    partial = new_payload-IsPartial pieces h;
    places = length-replicate (length pieces) none;
    free = free;
    left = whole;
    addressed = λ e. cc;
  }

  pub lookup-insert_self :
      (b : TuicFragmentBuffer) (pending : Pending) → lookup key (insert key b pending) ≡ some b
  lookup-insert_self b pending = lookup-insert key key b pending ∙ ground (arith, beq_refl key)

  -- The address of the buffer once a piece is in.
  abbrev target_with : ℕ → TuicFragmentBuffer → Option ProxyTarget
  target_with i b = if i == 0 then (fragment i).target else b.target

  target_with_known :
      (b : TuicFragmentBuffer) (i : ℕ) (order : List ℕ)
      → Waits b (i ∷ order)
      → contains order 0 ≡ false
      → target_with i b ≡ some target
  target_with_known b zero order w h = refl
  target_with_known b (suc i) order w h =
      let known = w.addressed (ground (arith, h)) in ground (arith, known)

  -- The buffer after piece `i`.
  abbrev pub with_piece : ℕ → TuicFragmentBuffer → TuicFragmentBuffer
  with_piece i b = record {
    target = target_with i b;
    created_at = b.created_at;
    fragments = record {
      chunks = set b.fragments.chunks i (some (get_or pieces i []));
      remaining = b.fragments.remaining - 1;
      length = b.fragments.length + length (get_or pieces i []);
    };
  }

  -- The last piece gives the packet.
  pub add_fragment_last :
      (b : TuicFragmentBuffer) (pending : Pending) (i : ℕ)
      → Waits b (i ∷ [])
      → (add_fragment (fragment i) pending b).1 ≡ ok (some packet)
  unfolding add_fragment
  add_fragment_last b pending i w = elim (insert-piece pieces b.fragments i w.partial w.free.0) [
    | inr (more, e) ↦ absurd (omega (arith, w.left))
    | inl (last, e) ↦
        rw (w.places, beq_refl (length pieces), e, target_with_known b i [] w refl) refl
  ]

  -- A piece that is not the last is kept.
  pub add_fragment_more :
      (b : TuicFragmentBuffer) (pending : Pending) (i j : ℕ) (order : List ℕ)
      → Waits b (i ∷ j ∷ order)
      → add_fragment (fragment i) pending b ≡ (insert key (with_piece i b) pending, ok none)
  unfolding add_fragment
  add_fragment_more b pending i j order w =
      elim (insert-piece pieces b.fragments i w.partial w.free.0) [
        | inl (last, e) ↦ absurd (omega (arith, w.left))
        | inr (more, e) ↦ rw (w.places, beq_refl (length pieces), e) refl
      ]

  pub with_piece-Waits :
      (b : TuicFragmentBuffer) (i : ℕ) (order : List ℕ)
      → Waits b (i ∷ order)
      → Waits (with_piece i b) order
  with_piece-Waits b i order w = record {
    partial = insert_piece-IsPartial pieces b.fragments i w.partial w.free.0;
    places = length-set b.fragments.chunks i (some (get_or pieces i [])) ∙ w.places;
    free = AllFree-set b.fragments.chunks i (some (get_or pieces i [])) order w.free.1 w.free.2;
    left = omega (arith, w.left);
    addressed = target_with_known b i order w;
  }

  pub length-piece-le : (ps : List Text) (i : ℕ) → length (get_or ps i []) ≤ length (joined ps)
  length-piece-le [] i = omega arith
  length-piece-le (p ∷ ps) zero = omega (arith, length-append p (joined ps))
  length-piece-le (p ∷ ps) (suc i) =
      omega (arith, length-append p (joined ps), length-piece-le ps i)

  get_elem?-lt :
      {A : Type 0} (xs : List A) (i : ℕ) {x : A} → get_elem? xs i ≡ some x → i < length xs
  get_elem?-lt [] i h = cc
  get_elem?-lt (x ∷ xs) zero h = omega arith
  get_elem?-lt (x ∷ xs) (suc i) h = omega (arith, get_elem?-lt xs i h)

  -- The index of a fragment that is waited for is in range.
  pub Waits-lt :
      (b : TuicFragmentBuffer) (i : ℕ) (order : List ℕ) → Waits b (i ∷ order) → i < length pieces
  Waits-lt b i order w = subst (λ n. i < n) w.places (get_elem?-lt b.fragments.chunks i w.free.0)

  -- A fragment of the packet goes to its buffer: the one that is there, or a new one.
  pub push_fragment_own :
      (now : ℕ) (pending : Pending) (i : ℕ) (b : TuicFragmentBuffer) (order : List ℕ)
      → Waits b (i ∷ order)
      → 2 ≤ length pieces
      → (is_some (lookup key (retain (is_recent now) pending)) ≡ true)
        ⊎ (length pending < max_pending_packets)
      → entry_or_new now (length pieces) (lookup key (retain (is_recent now) pending)) ≡ b
      → push_fragment now pending (fragment i)
        ≡ add_fragment (fragment i) (retain (is_recent now) pending) b
  unfolding push_fragment
  push_fragment_own now pending i b order w several room e = rw e ground (
    arith,
    Waits-lt b i order w,
    length-piece-le pieces i,
    w.partial.fits,
    length-retain-le (is_recent now) pending,
  )

  joined_one : (ps : List Text) → length ps ≡ 1 → joined ps ≡ get_or ps 0 []
  joined_one [] h = absurd (omega arith)
  joined_one (p ∷ []) h = append-nil p
  joined_one (p ∷ q ∷ ps) h = absurd (omega arith)

  -- The only fragment of a packet is the packet.
  pub push_fragment_single :
      (now : ℕ) (pending : Pending)
      → length pieces ≡ 1
      → length (joined pieces) ≤ max_udp_payload
      → push_fragment now pending (fragment 0) ≡ (pending, ok (some packet))
  unfolding push_fragment
  push_fragment_single now pending one small =
      rw (joined_one pieces one) ground (arith, one, length-piece-le pieces 0, small)
