-- ===== src/Vision/Probe.antt =====
-- `TlsFilter`: whether a stream looks like TLS, and whether its server hello allows a direct copy.
use aerion.Base.{
  ℕ, zero, suc, ◌+◌, Bool, true, false, not, ◌&&◌, ◌||◌, [], ◌∷◌, ◌++◌, leb, ltb, ◌==◌,
  if◌then◌else◌, length, take, drop, get_or, bytes_beq,
}
use aerion.Base.Text.{Text}
use aerion.Base.Bytes.{from_be}

pub record TlsProbe : Type 0 where
  pub buffer : Text
  pub handshake : Text
  pub stopped : Bool

pub record TlsFilter : Type 0 where
  pub incoming : TlsProbe
  pub outgoing : TlsProbe
  pub tls : Bool
  pub direct : Bool

-- The loop over the extensions: whether one is the version extension with TLS 1.3. An extension has four
-- bytes at least, so the length is enough fuel.
unfoldable pub has_tls13 : ℕ → Text → Bool
has_tls13 zero extensions = false
has_tls13 (suc fuel) extensions =
    let size = from_be (take 2 (drop 2 extensions)) in
    let rest = has_tls13 fuel (drop (4 + size) extensions) in
    if ltb (length extensions) 4
    then false
    else if ltb (length extensions) (4 + size)
    then false
    else if (from_be (take 2 extensions) == 43)
        && bytes_beq (take size (drop 4 extensions)) (3 ∷ 4 ∷ [])
    then true
    else rest

-- `get(offset..offset + n)`
abbrev pub has_range : Text → ℕ → ℕ → Bool
has_range s offset n = leb (offset + n) (length s)

unfoldable pub server_hello_allows_direct : Text → Bool
unfolding has_tls13
server_hello_allows_direct hello =
    let cipher_offset = 35 + get_or hello 34 0 in
    let suite = from_be (take 2 (drop cipher_offset hello)) in
    let extensions_offset = cipher_offset + 3 in
    let size = from_be (take 2 (drop extensions_offset hello)) in
    if ltb (length hello) 38 || not (bytes_beq (take 2 hello) (3 ∷ 3 ∷ []))
    then false
    else if not (has_range hello cipher_offset 2)
    then false
    else if not (leb 0x1301 suite && leb suite 0x1304)
    then false
    else if not (has_range hello extensions_offset 2)
    then false
    else if not (has_range hello (extensions_offset + 2) size)
    then false
    else has_tls13 size (take size (drop (extensions_offset + 2) hello))

-- The part of the filter that both directions share.
pub record Findings : Type 0 where
  pub tls : Bool
  pub direct : Bool

-- The messages of the handshake that are there in full; a message has four bytes at least. Whether the
-- probe goes on stands last.
unfoldable pub take_handshakes : ℕ → TlsProbe → Findings → TlsProbe × (Findings × Bool)
unfolding server_hello_allows_direct
take_handshakes zero probe found = (probe, (found, true))
take_handshakes (suc fuel) probe found =
    let size = from_be (take 3 (drop 1 probe.handshake)) in
    let kind = get_or probe.handshake 0 0 in
    let next : TlsProbe = record probe { handshake = drop (4 + size) probe.handshake } in
    let learned : Findings = record {
      tls = found.tls || (kind == 1 || kind == 2);
      direct =
          if kind == 2
          then server_hello_allows_direct (take size (drop 4 probe.handshake))
          else found.direct;
    } in
    let rest = take_handshakes fuel next learned in
    if ltb (length probe.handshake) 4
    then (probe, (found, true))
    else if ltb 65536 size
    then (record probe { stopped = true; handshake = [] }, (found, false))
    else if ltb (length probe.handshake) (4 + size)
    then (probe, (found, true))
    else rest

-- The records that are there in full; a record has five bytes at least.
unfoldable pub take_records : ℕ → TlsProbe → Findings → TlsProbe × Findings
unfolding take_handshakes
take_records zero probe found = (probe, found)
take_records (suc fuel) probe found =
    let size = from_be (take 2 (drop 3 probe.buffer)) in
    let whole : TlsProbe = record probe {
      buffer = drop (5 + size) probe.buffer;
      handshake = probe.handshake ++ take size (drop 5 probe.buffer);
    } in
    let (seen, (learned, goes_on)) = take_handshakes (length whole.handshake) whole found in
    let rest = take_records fuel seen learned in
    if ltb (length probe.buffer) 5
    then (probe, found)
    else if not ((get_or probe.buffer 0 0 == 22) && (get_or probe.buffer 1 0 == 3))
    then (record { buffer = []; handshake = []; stopped = true }, found)
    else if ltb 18432 size
    then (record probe { stopped = true; buffer = [] }, found)
    else if ltb (length probe.buffer) (5 + size)
    then (probe, found)
    else if goes_on
    then rest
    else (seen, learned)

-- `TlsFilter::observe`
unfoldable pub observe_probe : Text → TlsProbe → Findings → TlsProbe × Findings
unfolding take_records
observe_probe payload probe found =
    let buffer = probe.buffer ++ payload in
    if probe.stopped
    then (probe, found)
    else take_records (length buffer) (record probe { buffer = buffer }) found

unfoldable pub observe : Text → Bool → TlsFilter → TlsFilter
unfolding observe_probe
observe payload is_incoming filter =
    let found : Findings = record { tls = filter.tls; direct = filter.direct } in
    if is_incoming
    then (let (probe, learned) = observe_probe payload filter.incoming found in
        record filter { incoming = probe; tls = learned.tls; direct = learned.direct })
    else (let (probe, learned) = observe_probe payload filter.outgoing found in
        record filter { outgoing = probe; tls = learned.tls; direct = learned.direct })
