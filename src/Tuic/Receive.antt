-- ===== src/Tuic/Receive.antt =====
-- `parse_packet_command`, `push_fragment` and `handle_client_packet_bytes`.
use aerion.Base.{
  ℕ, ◌-◌, Bool, true, not, ◌&&◌, ◌||◌, Option, none, some, List, leb, ltb, ◌==◌, if◌then◌else◌,
  length, take, drop, get_or, is_some, lookup, insert, remove, retain, pair_eq, nat_eq, Result, ok,
  err, ◌>>=◌, map_err,
}
use aerion.Base.Text.{Text}
use aerion.Base.Bytes.{from_be}
use aerion.Protocol.Target.{ProxyTarget}
use aerion.Fragments.{FragmentPayload, FragmentError, new_payload, count, max_udp_payload}
use aerion.Fragments as Fragments
use aerion.Tuic.{
  tuic_version, cmd_packet, cmd_heartbeat, packet_command_fixed_len, max_pending_packets,
  udp_fragment_timeout, TuicError, TuicPacket, TuicPacketCommand, TuicFragmentBuffer, Pending,
  parse_tuic_address, bad_address, bad_fragment, too_short, bad_version, not_packet, zero_total,
  bad_index, payload_short, trailing_bytes, missing_address, unexpected_address, payload_too_large,
  map_full, count_changed, unexpected_command,
}

-- The part of `parse_packet_command` after the address.
unfoldable pub parse_payload : Text → Option ProxyTarget × Text → Result TuicError TuicPacketCommand
parse_payload bytes (target, rest) =
    let size = from_be (take 2 (drop 8 bytes)) in
    let frag_total = get_or bytes 6 0 in
    let frag_id = get_or bytes 7 0 in
    if ltb (length rest) size
    then err payload_short
    else if not (length rest == size)
    then err trailing_bytes
    else if (frag_total == 1 || frag_id == 0) && not (is_some target)
    then err missing_address
    else if not (frag_total == 1 || frag_id == 0) && is_some target
    then err unexpected_address
    else ok (record {
      assoc_id = from_be (take 2 (drop 2 bytes));
      packet_id = from_be (take 2 (drop 4 bytes));
      frag_total = frag_total;
      frag_id = frag_id;
      target = target;
      payload = take size rest;
    })

unfoldable pub parse_packet_command : Text → Result TuicError TuicPacketCommand
unfolding parse_tuic_address parse_payload
parse_packet_command bytes =
    if ltb (length bytes) packet_command_fixed_len
    then err too_short
    else if not (get_or bytes 0 0 == tuic_version)
    then err bad_version
    else if not (get_or bytes 1 0 == cmd_packet)
    then err not_packet
    else if get_or bytes 6 0 == 0
    then err zero_total
    else if leb (get_or bytes 6 0) (get_or bytes 7 0)
    then err bad_index
    else map_err bad_address (parse_tuic_address (drop 10 bytes)) >>= parse_payload bytes

-- Whether a buffer is younger than the timeout.
abbrev pub is_recent : ℕ → TuicFragmentBuffer → Bool
is_recent now buffer = leb (now - buffer.created_at) udp_fragment_timeout

-- `entry(key).or_insert_with(..)`
abbrev pub entry_or_new : ℕ → ℕ → Option TuicFragmentBuffer → TuicFragmentBuffer
entry_or_new now frag_total (some buffer) = buffer
entry_or_new now frag_total none = record {
  target = none;
  created_at = now;
  fragments = new_payload frag_total;
}

-- The answer to a fragment, and the removal of the buffer when the packet is whole.
abbrev pub finish :
    ℕ × ℕ
    → Option ProxyTarget
    → Pending
    → Result FragmentError (Option Text)
    → Pending × Result TuicError (Option TuicPacket)
finish key target pending (err e) = (pending, err (bad_fragment e))
finish key target pending (ok none) = (pending, ok none)
finish key none pending (ok (some payload)) = (pending, err missing_address)
finish key (some target) pending (ok (some payload)) = (
  remove key pending,
  ok (some (record { assoc_id = key.0; target = target; payload = payload })),
)

-- The fragment is put into the buffer of its packet.
unfoldable pub add_fragment :
    TuicPacketCommand
    → Pending
    → TuicFragmentBuffer
    → Pending × Result TuicError (Option TuicPacket)
add_fragment packet pending buffer =
    let key : ℕ × ℕ = (packet.assoc_id, packet.packet_id) in
    if not (count buffer.fragments == packet.frag_total)
    then (insert key buffer pending, err count_changed)
    else let target = if packet.frag_id == 0 then packet.target else buffer.target in
      let (fragments, answer) = Fragments.insert buffer.fragments packet.frag_id packet.payload in
      let updated : TuicFragmentBuffer = record {
        target = target;
        created_at = buffer.created_at;
        fragments = fragments;
      } in
      finish key target (insert key updated pending) answer

-- A packet of one fragment.
abbrev pub single_packet : TuicPacketCommand → Result TuicError (Option TuicPacket)
single_packet packet = elim packet.target [
  | none ↦ err missing_address
  | some target ↦
      ok (some (record { assoc_id = packet.assoc_id; target = target; payload = packet.payload }))
]

unfoldable pub push_fragment :
    ℕ → Pending → TuicPacketCommand → Pending × Result TuicError (Option TuicPacket)
push_fragment now pending packet =
    let key : ℕ × ℕ = (packet.assoc_id, packet.packet_id) in
    if not (ltb 0 packet.frag_total && ltb packet.frag_id packet.frag_total)
    then (pending, err bad_index)
    else if ltb max_udp_payload (length packet.payload)
    then (pending, err payload_too_large)
    else if packet.frag_total == 1
    then (pending, single_packet packet)
    else let live = retain (is_recent now) pending in
      if ltb (length live) max_pending_packets || is_some (lookup key live)
      then add_fragment packet live (entry_or_new now packet.frag_total (lookup key live))
      else (live, err map_full)

-- A whole packet is handed to the session of its association, if there is one and `try_send` does not
-- fail on its channel.
abbrev pub for_session : List (ℕ × Bool) → Option TuicPacket → Option TuicPacket
for_session sessions none = none
for_session sessions (some packet) = elim (lookup packet.assoc_id sessions) [
  | some true ↦ some packet
  | _ ↦ none
]

abbrev pub dispatch_packet :
    List (ℕ × Bool)
    → Pending × Result TuicError (Option TuicPacket)
    → Pending × Result TuicError (Option TuicPacket)
dispatch_packet sessions (pending, err e) = (pending, err e)
dispatch_packet sessions (pending, ok packet) = (pending, ok (for_session sessions packet))

-- `handle_client_packet_bytes`: the sessions are the associations that listen, each with whether its
-- channel takes a packet (it is full or closed otherwise), and the answer is the packet that is sent.
unfoldable pub handle_client_packet_bytes :
    List (ℕ × Bool) → ℕ → Pending → Text → Pending × Result TuicError (Option TuicPacket)
handle_client_packet_bytes sessions now pending bytes =
    if ltb (length bytes) 2
    then (pending, err too_short)
    else if not (get_or bytes 0 0 == tuic_version)
    then (pending, err bad_version)
    else if get_or bytes 1 0 == cmd_packet
    then elim (parse_packet_command bytes) [
      | err e ↦ (pending, err e)
      | ok packet ↦ dispatch_packet sessions (push_fragment now pending packet)
    ]
    else if get_or bytes 1 0 == cmd_heartbeat
    then (pending, ok none)
    else (pending, err unexpected_command)
