-- ===== src/Tuic/Delivery.antt =====
-- The fragments of a packet arrive at the client in any order, among other commands.
use aerion.Base.{
  ℕ, zero, suc, ◌-◌, ◌≤◌, ◌<◌, ◌≡◌, refl, ◌∙◌, ap, ◌⊎◌, inl, inr, true, false, Option, none, some,
  List, [], ◌∷◌, arith, ◌==◌, ltb, length, get_or, is_some, lookup, insert, retain, pair_eq, nat_eq,
  All, lookup-retain_kept, lookup-retain_absent, Result, Result-cases, ok, err, subst, Bool, sym,
  Bool-cases,
}
use aerion.Base.Text.{Text}
use aerion.Fragments.{max_udp_payload}
use aerion.Fragments.Assembly.{joined}
use aerion.Fragments.Orders.{IsOrder, IsOrder-first}
use aerion.Protocol.Target.{ProxyTarget}
use aerion.Tuic.{
  TuicPacketCommand, TuicPacket, TuicFragmentBuffer, TuicError, Pending, udp_fragment_timeout,
  max_pending_packets,
}
use aerion.Tuic.Receive.{
  is_recent, entry_or_new, parse_packet_command, push_fragment, add_fragment, dispatch_packet,
  for_session, handle_client_packet_bytes,
}
use aerion.Tuic.Reassembly.{
  key_of, fragment, packet, Waits, with_piece, push_fragment_other, push_fragment_own,
  add_fragment_last, add_fragment_more, with_piece-Waits, new_buffer-Waits, Waits-lt,
  lookup-insert_self, push_fragment_single,
}

-- What reaches the client: the frame of the packet with an index, or another command.
pub data Arrival : Type 0 where
  own : ℕ → Arrival
  other : Text → Arrival

-- The indices of the fragments, in their order of arrival.
abbrev pub order_of : List (ℕ × Arrival) → List ℕ
order_of [] = []
order_of ((now, own i) ∷ arrivals) = i ∷ order_of arrivals
order_of ((now, other bytes) ∷ arrivals) = order_of arrivals

-- Every fragment but the last is accepted without a result, and the last one gives the packet.
abbrev pub one_answer : TuicPacket → List ℕ → List (Result TuicError (Option TuicPacket))
one_answer p [] = []
one_answer p (i ∷ []) = ok (some p) ∷ []
one_answer p (i ∷ j ∷ order) = ok none ∷ one_answer p (j ∷ order)

-- A fragment comes within the timeout of the first one, and so does another command, which is not a
-- fragment of the packet.
abbrev pub Allowed : ℕ → ℕ → ℕ → ℕ × Arrival → Type 0
Allowed assoc_id packet_id first (now, own i) = now - first ≤ udp_fragment_timeout
Allowed assoc_id packet_id first (now, other bytes) =
    (now - first ≤ udp_fragment_timeout)
    × ((p : TuicPacketCommand)
        → parse_packet_command bytes ≡ ok p
        → pair_eq.eq (key_of p) (assoc_id, packet_id) ≡ false)

List-cases : {A : Type 0} (xs : List A) → (xs ≡ []) ⊎ ((x : A) × (rest : List A) × (xs ≡ x ∷ rest))
List-cases [] = inl refl
List-cases (x ∷ xs) = inr (x, xs, refl)

parsed_header :
    (bytes : Text) (p : TuicPacketCommand)
    → parse_packet_command bytes ≡ ok p
    → (10 ≤ length bytes) × (get_or bytes 0 0 ≡ 5) × (get_or bytes 1 0 ≡ 2)
unfolding parse_packet_command
parsed_header bytes p h = elim (Bool-cases (ltb (length bytes) 10)) [
  | inl e ↦ (let wrong = rw e at h in cc)
  | inr long ↦ elim (Bool-cases (get_or bytes 0 0 == 5)) [
    | inr e ↦ (let wrong = rw (long, e) at h in cc)
    | inl version ↦ elim (Bool-cases (get_or bytes 1 0 == 2)) [
      | inr e ↦ (let wrong = rw (long, version, e) at h in cc)
      | inl kind ↦ (ground (arith, long), ground (arith, version), ground (arith, kind))
    ]
  ]
]

abbrev ok_packet : Option TuicPacket → Result TuicError (Option TuicPacket)
ok_packet p = ok p

module _ (sessions : List (ℕ × Bool)) where
  -- A command that parses as a packet is pushed.
  handle_packet :
      (now : ℕ) (pending : Pending) (bytes : Text) (p : TuicPacketCommand)
      → parse_packet_command bytes ≡ ok p
      → handle_client_packet_bytes sessions now pending bytes
        ≡ dispatch_packet sessions (push_fragment now pending p)
  unfolding handle_client_packet_bytes
  handle_packet now pending bytes p h =
      let (long, version, kind) = parsed_header bytes p h in
      rw h ground (arith, long, version, kind)

  dispatch_state :
      (step : Pending × Result TuicError (Option TuicPacket))
      → (dispatch_packet sessions step).0 ≡ step.0
  dispatch_state (pending, err e) = refl
  dispatch_state (pending, ok p) = refl

  -- A command that is no packet changes no buffer.
  handle_no_packet :
      (now : ℕ) (pending : Pending) (bytes : Text) (e : TuicError)
      → parse_packet_command bytes ≡ err e
      → (handle_client_packet_bytes sessions now pending bytes).0 ≡ pending
  unfolding handle_client_packet_bytes
  handle_no_packet now pending bytes e h = rw h ground arith

  -- The answers to the frames of one packet among other arrivals.
  unfoldable pub deliver :
      List Text → Pending → List (ℕ × Arrival) → List (Result TuicError (Option TuicPacket))
  deliver frames pending [] = []
  deliver frames pending ((now, own i) ∷ arrivals) =
      let (pending', answer) =
        handle_client_packet_bytes sessions now pending (get_or frames i []) in
      answer ∷ deliver frames pending' arrivals
  deliver frames pending ((now, other bytes) ∷ arrivals) =
      deliver frames (handle_client_packet_bytes sessions now pending bytes).0 arrivals

  deliver_none :
      (frames : List Text) (pending : Pending) (arrivals : List (ℕ × Arrival))
      → order_of arrivals ≡ []
      → deliver frames pending arrivals ≡ []
  unfolding deliver
  deliver_none frames pending [] h = refl
  deliver_none frames pending ((now, own i) ∷ arrivals) h = cc
  deliver_none frames pending ((now, other bytes) ∷ arrivals) h =
      deliver_none frames (handle_client_packet_bytes sessions now pending bytes).0 arrivals h

  some_sent :
      (q p : TuicPacket)
      → ok_packet (some q) ≡ ok (some p)
      → lookup p.assoc_id sessions ≡ some true
      → ok_packet (for_session sessions (some q)) ≡ ok (some p)
  some_sent q p h listens =
      let same : q ≡ p = ground (arith, h) in
      subst (λ r. ok_packet (for_session sessions (some r)) ≡ ok (some p)) (sym same)
        (rw (listens, for_session) refl)

  dispatch_packet_answer :
      (step : Pending × Result TuicError (Option TuicPacket)) (p : TuicPacket)
      → step.1 ≡ ok (some p)
      → lookup p.assoc_id sessions ≡ some true
      → (dispatch_packet sessions step).1 ≡ ok (some p)
  dispatch_packet_answer (pending, err e) p h listens = cc
  dispatch_packet_answer (pending, ok none) p h listens = cc
  dispatch_packet_answer (pending, ok (some q)) p h listens = some_sent q p h listens

  module _ (assoc_id packet_id max_frame_len : ℕ) (target : ProxyTarget)
      (pieces frames : List Text) where
    abbrev pub whole : TuicPacket
    whole = packet assoc_id packet_id max_frame_len target pieces

    abbrev pub AllParsed : Type 0
    AllParsed =
        (i : ℕ)
        → i < length pieces
        → parse_packet_command (get_or frames i [])
          ≡ ok (fragment assoc_id packet_id max_frame_len target pieces i)

    abbrev WaitsFor : TuicFragmentBuffer → List ℕ → Type 0
    WaitsFor = Waits assoc_id packet_id max_frame_len target pieces

    -- The buffer of the packet is there.
    record Has (first : ℕ) (pending : Pending) (b : TuicFragmentBuffer) : Type 0 where
      found : lookup (assoc_id, packet_id) pending ≡ some b
      since : b.created_at ≡ first

    kept :
        (first now : ℕ) (pending : Pending) (b : TuicFragmentBuffer)
        → Has first pending b
        → now - first ≤ udp_fragment_timeout
        → lookup (assoc_id, packet_id) (retain (is_recent now) pending) ≡ some b
    kept first now pending b has timely =
        lookup-retain_kept (is_recent now) (assoc_id, packet_id) b pending has.found
          (rw (has.since) ground (arith, timely))

    other-Has :
        (first now : ℕ) (pending : Pending) (b : TuicFragmentBuffer) (bytes : Text)
        → Has first pending b
        → Allowed assoc_id packet_id first (now, other bytes)
        → Has first (handle_client_packet_bytes sessions now pending bytes).0 b
    other-Has first now pending b bytes has (timely, foreign) =
        elim (Result-cases (parse_packet_command bytes)) [
          | inr (e, h) ↦ record {
            found = rw (handle_no_packet now pending bytes e h) (has.found);
            since = has.since;
          }
          | inl (p, h) ↦ record {
            found =
                rw
                  (
                    handle_packet now pending bytes p h,
                    dispatch_state (push_fragment now pending p),
                  )
                  (push_fragment_other (assoc_id, packet_id) b now pending p (foreign p h) has.found
                    (rw (has.since) ground (arith, timely)));
            since = has.since;
          }
        ]

    -- A fragment reaches the buffer that waits for it.
    own_pushed :
        (now i : ℕ) (pending : Pending) (b : TuicFragmentBuffer) (order : List ℕ)
        → AllParsed
        → WaitsFor b (i ∷ order)
        → 2 ≤ length pieces
        → (is_some (lookup (assoc_id, packet_id) (retain (is_recent now) pending)) ≡ true)
          ⊎ (length pending < max_pending_packets)
        → entry_or_new now
            (length pieces)
            (lookup (assoc_id, packet_id) (retain (is_recent now) pending))
          ≡ b
        → handle_client_packet_bytes sessions now pending (get_or frames i [])
          ≡ dispatch_packet sessions (
              add_fragment
                (fragment assoc_id packet_id max_frame_len target pieces i)
                (retain (is_recent now) pending)
                b)
    own_pushed now i pending b order parsed w several room e =
        handle_packet now pending (get_or frames i [])
          (fragment assoc_id packet_id max_frame_len target pieces i)
          (parsed i (Waits-lt assoc_id packet_id max_frame_len target pieces b i order w))
        ∙ ap (dispatch_packet sessions) (
            push_fragment_own assoc_id packet_id max_frame_len target pieces now pending i b order w
              several room e)

    -- A fragment is put into its buffer, and then the others arrive.
    after_own :
        (first now i : ℕ) (pending live : Pending) (b : TuicFragmentBuffer)
        (arrivals : List (ℕ × Arrival))
        → WaitsFor b (i ∷ order_of arrivals)
        → b.created_at ≡ first
        → lookup assoc_id sessions ≡ some true
        → handle_client_packet_bytes sessions now pending (get_or frames i [])
          ≡ dispatch_packet sessions
              (add_fragment (fragment assoc_id packet_id max_frame_len target pieces i) live b)
        → ((pending' : Pending)
            → Has first pending' (with_piece assoc_id packet_id max_frame_len target pieces i b)
            → deliver frames pending' arrivals ≡ one_answer whole (order_of arrivals))
        → deliver frames pending ((now, own i) ∷ arrivals)
          ≡ one_answer whole (i ∷ order_of arrivals)
    unfolding deliver
    after_own first now i pending live b arrivals w since listens handled rest =
        elim (List-cases (order_of arrivals)) [
          | inl e ↦
              let last =
                add_fragment_last assoc_id packet_id max_frame_len target pieces b live i
                  (subst (λ order. WaitsFor b (i ∷ order)) e w) in
              let added =
                add_fragment (fragment assoc_id packet_id max_frame_len target pieces i) live b in
              rw
                (
                  e,
                  handled,
                  dispatch_packet_answer added whole last listens,
                  deliver_none frames (dispatch_packet sessions added).0 arrivals e,
                )
                refl
          | inr (j, order, e) ↦
              let more =
                add_fragment_more assoc_id packet_id max_frame_len target pieces b live i j order
                  (subst (λ order. WaitsFor b (i ∷ order)) e w) in
              let updated = with_piece assoc_id packet_id max_frame_len target pieces i b in
              rw (e, handled, more)
                (ap (◌∷◌ (ok none)) (
                  rest (insert (assoc_id, packet_id) updated live) (record {
                    found =
                        lookup-insert_self assoc_id packet_id max_frame_len target pieces updated
                          live;
                    since = since;
                  })
                  ∙ ap (one_answer whole) e))
        ]

    -- The fragments after the first.
    deliver_rest :
        (first : ℕ) (pending : Pending) (b : TuicFragmentBuffer) (arrivals : List (ℕ × Arrival))
        → AllParsed
        → 2 ≤ length pieces
        → lookup assoc_id sessions ≡ some true
        → Has first pending b
        → WaitsFor b (order_of arrivals)
        → All (Allowed assoc_id packet_id first) arrivals
        → deliver frames pending arrivals ≡ one_answer whole (order_of arrivals)
    unfolding deliver
    deliver_rest first pending b [] parsed several listens has w allowed = refl
    deliver_rest first pending b ((now, other bytes) ∷ arrivals) parsed several listens has w
          (a, allowed) =
        deliver_rest first (handle_client_packet_bytes sessions now pending bytes).0 b arrivals
          parsed several listens (other-Has first now pending b bytes has a) w allowed
    deliver_rest first pending b ((now, own i) ∷ arrivals) parsed several listens has w
          (timely, allowed) =
        let found = kept first now pending b has timely in
        after_own first now i pending (retain (is_recent now) pending) b arrivals w has.since
          listens
          (own_pushed now i pending b (order_of arrivals) parsed w several
            (inl (ground (arith, found))) (rw found refl))
          (λ pending' has'.
            deliver_rest first pending'
              (with_piece assoc_id packet_id max_frame_len target pieces i b) arrivals parsed
              several listens has'
              (with_piece-Waits assoc_id packet_id max_frame_len target pieces b i
                (order_of arrivals) w)
              allowed)

    -- The first fragment to arrive opens the buffer.
    pub deliver_several :
        (now i : ℕ) (pending : Pending) (arrivals : List (ℕ × Arrival))
        → AllParsed
        → 2 ≤ length pieces
        → length (joined pieces) ≤ max_udp_payload
        → lookup assoc_id sessions ≡ some true
        → lookup (assoc_id, packet_id) pending ≡ none
        → length pending < max_pending_packets
        → IsOrder (length pieces) (i ∷ order_of arrivals)
        → All (Allowed assoc_id packet_id now) arrivals
        → deliver frames pending ((now, own i) ∷ arrivals)
          ≡ one_answer whole (i ∷ order_of arrivals)
    deliver_several now i pending arrivals parsed several small listens absent room order allowed =
        let fresh = lookup-retain_absent (is_recent now) (assoc_id, packet_id) pending absent in
        let b = entry_or_new now (length pieces) none in
        let w =
          new_buffer-Waits assoc_id packet_id max_frame_len target pieces now
            (i ∷ order_of arrivals) small order.0 order.1
            (IsOrder-first (length pieces) (i ∷ order_of arrivals) (omega (arith, several))
              order) in
        after_own now now i pending (retain (is_recent now) pending) b arrivals w refl listens
          (own_pushed now i pending b (order_of arrivals) parsed w several (inr room)
            (rw fresh refl))
          (λ pending' has'.
            deliver_rest now pending'
              (with_piece assoc_id packet_id max_frame_len target pieces i b) arrivals parsed
              several listens has'
              (with_piece-Waits assoc_id packet_id max_frame_len target pieces b i
                (order_of arrivals) w)
              allowed)

    -- A packet of one fragment.
    pub deliver_single :
        (now i : ℕ) (pending : Pending) (arrivals : List (ℕ × Arrival))
        → AllParsed
        → length pieces ≡ 1
        → length (joined pieces) ≤ max_udp_payload
        → lookup assoc_id sessions ≡ some true
        → IsOrder 1 (i ∷ order_of arrivals)
        → deliver frames pending ((now, own i) ∷ arrivals)
          ≡ one_answer whole (i ∷ order_of arrivals)
    unfolding deliver
    deliver_single now (suc i) pending arrivals parsed one small listens order =
        absurd (ground (arith, order.0.0))
    deliver_single now zero pending arrivals parsed one small listens order =
        elim (List-cases (order_of arrivals)) [
          | inr (j, rest, e) ↦ absurd (omega (arith, order.1, ap length e))
          | inl e ↦
              let first = fragment assoc_id packet_id max_frame_len target pieces 0 in
              let handled =
                handle_packet now pending (get_or frames 0 []) first
                  (parsed 0 (omega (arith, one))) in
              let pushed =
                push_fragment_single assoc_id packet_id max_frame_len target pieces now pending one
                  small in
              rw (e, handled, pushed, deliver_none frames pending arrivals e) ground
                (arith, listens)
        ]
