-- ===== src/Vision/Reader.antt =====
-- `VisionReader::poll_read` on a stream of chunks.
use aerion.Base.{
  ℕ, zero, suc, Bool, true, false, ◌&&◌, Option, none, some, List, [], ◌∷◌, ◌++◌, leb,
  if◌then◌else◌, is_empty, length, take, drop, Result, ok, err, ◌>>=◌,
}
use aerion.Base.Text.{Text}
use aerion.Vision.{
  VisionError, VisionControl, ReadState, VisionReader, decode_available, poll_decoded, initial, raw,
}

-- What a read gives: the bytes in the buffer, the reader and the chunks still to come.
abbrev pub Read : Type 0
Read = Text × (VisionReader × List Text)

abbrev pub is_raw : ReadState → Bool
is_raw raw = true
is_raw _ = false

-- The inner stream is read straight into the buffer: a chunk that does not fit stays in part.
unfoldable pub read_inner : ℕ → VisionReader → List Text → Read
read_inner room r [] = ([], (r, []))
read_inner room r (chunk ∷ chunks) =
    if leb (length chunk) room
    then (chunk, (r, chunks))
    else (take room chunk, (r, drop room chunk ∷ chunks))

-- The bytes that decoding gave, or what to do when it gave none.
abbrev pub after_poll :
    List Text
    → Option Text × VisionReader
    → (VisionReader → Option (Result VisionError Read))
    → Option (Result VisionError Read)
after_poll chunks (some taken, next) missing = some (ok (taken, (next, chunks)))
after_poll chunks (none, next) missing = missing next

abbrev pub after_decode :
    ℕ
    → List Text
    → Option (Result VisionError VisionReader)
    → (VisionReader → Option (Result VisionError Read))
    → Option (Result VisionError Read)
after_decode room chunks none missing = none
after_decode room chunks (some (err e)) missing = some (err e)
after_decode room chunks (some (ok r)) missing = after_poll chunks (poll_decoded room r) missing

-- The loop of `poll_read`. A chunk is what one read of the inner stream gives to the scratch buffer, and
-- the inner stream has ended after the last one.
unfoldable pub read_loop : ℕ → VisionReader → List Text → Option (Result VisionError Read)
read_loop room r [] = after_decode room [] (decode_available false r) (λ s.
    if is_raw s.state && is_empty s.encoded
    then some (ok (read_inner room s []))
    else after_decode room [] (decode_available true s) (λ t. some (ok ([], (t, [])))))
read_loop room r (chunk ∷ chunks) =
    after_decode room (chunk ∷ chunks) (decode_available false r) (λ s.
      if is_raw s.state && is_empty s.encoded
      then some (ok (read_inner room s (chunk ∷ chunks)))
      else after_decode room chunks
          (decode_available false (record s { encoded = s.encoded ++ chunk }))
          (λ t. read_loop room t chunks))

-- `VisionReader::poll_read` into a buffer with the given room.
unfoldable pub poll_read : ℕ → VisionReader → List Text → Option (Result VisionError Read)
poll_read room r chunks = after_poll chunks (poll_decoded room r) (λ s. read_loop room s chunks)

-- Reads with the given room until one gives nothing, on fuel.
unfoldable pub read_to_end : ℕ → ℕ → VisionReader → List Text → Option (Result VisionError Text)
read_to_end zero room r chunks = none
read_to_end (suc fuel) room r chunks = elim (poll_read room r chunks) [
  | none ↦ none
  | some result ↦ elim result [
    | err e ↦ some (err e)
    | ok read ↦
        if is_empty read.0 then some (ok []) else elim (read_to_end fuel room read.1.0 read.1.1) [
          | none ↦ none
          | some rest ↦ some (rest >>= (λ bytes. ok (read.0 ++ bytes)))
        ]
  ]
]

-- `VisionReader::new`, `VisionReader::with_control`
abbrev pub new_reader : Text → Option VisionControl → VisionReader
new_reader user control = record {
  user = user;
  state = initial;
  encoded = [];
  decoded = [];
  control = control;
}
