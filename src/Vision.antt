-- ===== src/Vision.antt =====
-- src/vless_vision.rs: the state of a VLESS Vision reader, which takes away padding and hands on the
-- content, and its decoding loop. `Vision.Reader` is its poll_read, `Vision.Encoder` the writing side,
-- and `Vision.Probe` the TLS filter that both of them feed.
pub mod Probe
pub mod Encoder
pub mod Blocks
pub mod Delivery
pub mod Streams
pub mod Termination
pub mod Headers
pub mod Turns
pub mod Reading
pub mod Reader
mod Runs
use aerion.Base.{
  min, ℕ, zero, suc, ◌+◌, ◌-◌, Bool, true, false, not, ◌&&◌, Option, none, some, List, [], ◌∷◌,
  ◌++◌, leb, ltb, ◌==◌, if◌then◌else◌, is_empty, length, take, drop, get_or, bytes_beq, Result, ok,
  err, ◌>>=◌,
}
use aerion.Base.Text.{Text}
use aerion.Base.Bytes.{from_be}
use aerion.Vision.Probe.{TlsFilter, observe}

pub data VisionError : Type 0 where
  truncated_header invalid_command truncated_content truncated_padding direct_unsupported
        payload_too_large random_failed :
      VisionError

-- `VisionControl`, which the reader shares with the writer.
pub record VisionControl : Type 0 where
  pub read_direct : Bool
  pub write_direct : Bool
  pub filter : TlsFilter

-- `VisionControl::start_write_direct`
abbrev pub start_write_direct : VisionControl → VisionControl
start_write_direct c = record c { write_direct = true }

-- The command, and what is left of the content and of the padding of a block.
pub data ReadState : Type 0 where
  initial header raw : ReadState
  content : ℕ → ℕ → ℕ → ReadState
  padding : ℕ → ℕ → ReadState

-- `decoded` is what is left after `decoded_offset`.
pub record VisionReader : Type 0 where
  pub user : Text
  pub state : ReadState
  pub encoded : Text
  pub decoded : Text
  pub control : Option VisionControl

-- One turn of the loop goes on, or returns.
pub data Turn : Type 0 where
  again : VisionReader → Turn
  done : VisionReader → Turn
  failed : VisionError → Turn

-- The rest of the input is handed on as it is.
abbrev pub to_raw : VisionReader → VisionReader
to_raw r = record r { state = raw; decoded = r.decoded ++ r.encoded; encoded = [] }

abbrev pub turn_initial : Bool → VisionReader → Turn
turn_initial eof r =
    let prefix_len = min (length r.encoded) (length r.user) in
    if not (bytes_beq (take prefix_len r.encoded) (take prefix_len r.user))
    then done (to_raw r)
    else if ltb (length r.encoded) (length r.user + 5)
    then (if eof then done (to_raw r) else done r)
    else again (record r { encoded = drop (length r.user) r.encoded; state = header })

abbrev pub turn_header : Bool → VisionReader → Turn
turn_header eof r =
    if ltb (length r.encoded) 5
    then (if eof && not (is_empty r.encoded) then failed truncated_header else done r)
    else if ltb 2 (get_or r.encoded 0 0)
    then failed invalid_command
    else again (record r {
      encoded = drop 5 r.encoded;
      state =
          content (get_or r.encoded 0 0) (from_be (take 2 (drop 1 r.encoded)))
            (from_be (take 2 (drop 3 r.encoded)));
    })

abbrev pub turn_content : Bool → VisionReader → ℕ → ℕ → ℕ → Turn
turn_content eof r command remaining_content remaining_padding =
    if remaining_content == 0
    then again (record r { state = padding command remaining_padding })
    else let n = min remaining_content (length r.encoded) in
      if n == 0
      then (if eof then failed truncated_content else done r)
      else let decoded = r.decoded ++ take n r.encoded in
        let next : VisionReader = record r {
          decoded = decoded;
          encoded = drop n r.encoded;
          state = content command (remaining_content - n) remaining_padding;
        } in
        if is_empty decoded then again next else done next

-- A direct stream needs a transport that can be switched.
abbrev pub turn_direct : VisionReader → Option VisionControl → Turn
turn_direct r none = failed direct_unsupported
turn_direct r (some c) =
    done (to_raw (record r { control = some (record c { read_direct = true }) }))

-- After the last block of a padded stream.
abbrev pub turn_end : VisionReader → ℕ → Turn
turn_end r command =
    if command == 2
    then turn_direct r r.control
    else if command == 1
    then done (to_raw r)
    else failed invalid_command

-- The first `n` bytes of the padding are there.
abbrev pub padding_taken : Bool → VisionReader → ℕ → ℕ → ℕ → Turn
padding_taken eof r command remaining_padding n =
    if n == 0 && ltb 0 remaining_padding
    then (if eof then failed truncated_padding else done r)
    else let next : VisionReader = record r { encoded = drop n r.encoded } in
      if ltb 0 (remaining_padding - n)
      then done (record next { state = padding command (remaining_padding - n) })
      else if command == 0
      then again (record next { state = header })
      else turn_end next command

abbrev pub turn_padding : Bool → VisionReader → ℕ → ℕ → Turn
turn_padding eof r command remaining_padding =
    padding_taken eof r command remaining_padding (min remaining_padding (length r.encoded))

abbrev pub turn_in : Bool → VisionReader → ReadState → Turn
turn_in eof r initial = turn_initial eof r
turn_in eof r header = turn_header eof r
turn_in eof r (content command remaining_content remaining_padding) =
    turn_content eof r command remaining_content remaining_padding
turn_in eof r (padding command remaining_padding) = turn_padding eof r command remaining_padding
turn_in eof r raw = done (record r { decoded = r.decoded ++ r.encoded; encoded = [] })

-- One turn of the loop of `decode_available`.
unfoldable pub decode_turn : Bool → VisionReader → Turn
decode_turn eof r = turn_in eof r r.state

-- The loop on fuel: `none` when it has run out.
unfoldable pub decode_loop : ℕ → Bool → VisionReader → Option (Result VisionError VisionReader)
decode_loop zero eof r = none
decode_loop (suc fuel) eof r = elim (decode_turn eof r) [
  | again next ↦ decode_loop fuel eof next
  | done next ↦ some (ok next)
  | failed e ↦ some (err e)
]

-- More turns than this are not needed.
abbrev pub turns : VisionReader → ℕ
turns r = length r.encoded + 4

-- `VisionReader::decode_available`
unfoldable pub decode_available : Bool → VisionReader → Option (Result VisionError VisionReader)
decode_available eof r = decode_loop (turns r) eof r

abbrev pub observed : Text → Option VisionControl → Option VisionControl
observed taken none = none
observed taken (some c) = some (record c { filter = observe taken true c.filter })

-- `VisionReader::poll_decoded` for a buffer of the given room: what is put into the buffer.
unfoldable pub poll_decoded : ℕ → VisionReader → Option Text × VisionReader
unfolding observe
poll_decoded room r =
    if is_empty r.decoded
    then (none, r)
    else let taken = take (min (length r.decoded) room) r.decoded in
      (
        some taken,
        record r {
          decoded = drop (min (length r.decoded) room) r.decoded;
          control = observed taken r.control;
        },
      )
