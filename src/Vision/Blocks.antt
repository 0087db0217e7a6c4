-- ===== src/Vision/Blocks.antt =====
-- Where a reader stands in a stream of padded blocks, and what one turn of its loop does there.
use aerion.Base.{ℕ, ◌+◌, ◌^◌, ◌%◌, ◌≤◌, ◌<◌, ◌≡◌, Bool, true, false, [], ◌∷◌, ◌++◌, is_some, length}
use aerion.Base.Text.{Text}
use aerion.Base.Bytes.{be_bytes}
use aerion.Vision.{
  VisionReader, ReadState, initial, header, raw, content, padding, Turn, again, done, failed,
}

-- The padded blocks of a stream: it stops after a block, or goes on as it is after the last block, which
-- may ask for a direct copy.
pub data Stream : Type 0 where
  stop : Stream
  block : Text → Text → Stream → Stream
  last : Bool → Text → Text → Text → Stream

-- What follows the padding of a block.
pub data After : Type 0 where
  more : Stream → After
  tail : Bool → Text → After

abbrev pub end_command : Bool → ℕ
end_command true = 2
end_command false = 1

abbrev pub block_header : ℕ → Text → Text → Text
block_header command xs ys =
    command ∷ (be_bytes 2 (length xs % 2 ^ 16) ++ be_bytes 2 (length ys % 2 ^ 16))

abbrev pub stream_bytes : Stream → Text
stream_bytes stop = []
stream_bytes (block xs ys rest) = block_header 0 xs ys ++ (xs ++ (ys ++ stream_bytes rest))
stream_bytes (last direct xs ys rest) =
    block_header (end_command direct) xs ys ++ (xs ++ (ys ++ rest))

abbrev pub stream_content : Stream → Text
stream_content stop = []
stream_content (block xs ys rest) = xs ++ stream_content rest
stream_content (last direct xs ys rest) = xs ++ rest

abbrev pub IsStream : Stream → Type 0
IsStream stop = Unit {0}
IsStream (block xs ys rest) = (length xs ≤ 65535) × ((length ys ≤ 65535) × IsStream rest)
IsStream (last direct xs ys rest) = (length xs ≤ 65535) × (length ys ≤ 65535)

abbrev pub after_bytes : After → Text
after_bytes (more rest) = stream_bytes rest
after_bytes (tail direct rest) = rest

abbrev pub after_content : After → Text
after_content (more rest) = stream_content rest
after_content (tail direct rest) = rest

abbrev pub after_command : After → ℕ
after_command (more rest) = 0
after_command (tail direct rest) = end_command direct

abbrev pub IsAfter : After → Type 0
IsAfter (more rest) = IsStream rest
IsAfter (tail direct rest) = Unit {0}

-- A stream that is not empty.
abbrev pub IsStarted : Stream → Type 0
IsStarted stop = ⊥
IsStarted (block xs ys rest) = Unit {0}
IsStarted (last direct xs ys rest) = Unit {0}

pub data Position : Type 0 where
  at_start at_header : Stream → Position
  in_content : Text → Text → After → Position
  in_padding : Text → After → Position
  in_raw : Text → Position

abbrev pub state_of : Position → ReadState
state_of (at_start s) = initial
state_of (at_header s) = header
state_of (in_content xs ys a) = content (after_command a) (length xs) (length ys)
state_of (in_padding ys a) = padding (after_command a) (length ys)
state_of (in_raw s) = raw

-- The bytes and the content that are still to come.
abbrev pub bytes_of : Text → Position → Text
bytes_of user (at_start s) = user ++ stream_bytes s
bytes_of user (at_header s) = stream_bytes s
bytes_of user (in_content xs ys a) = xs ++ (ys ++ after_bytes a)
bytes_of user (in_padding ys a) = ys ++ after_bytes a
bytes_of user (in_raw s) = s

abbrev pub content_of : Position → Text
content_of (at_start s) = stream_content s
content_of (at_header s) = stream_content s
content_of (in_content xs ys a) = xs ++ after_content a
content_of (in_padding ys a) = after_content a
content_of (in_raw s) = s

abbrev pub IsPosition : Position → Type 0
IsPosition (at_start s) = IsStream s × IsStarted s
IsPosition (at_header s) = IsStream s
IsPosition (in_content xs ys a) = IsAfter a
IsPosition (in_padding ys a) = IsAfter a
IsPosition (in_raw s) = Unit {0}

-- A reader to which `s` is still to come, and which hands on `total` in all.
pub record Follows (r : VisionReader) (s total : Text) : Type 0 where
  pub position : Position
  pub valid : IsPosition position
  pub user_size : length r.user ≡ 16
  pub controlled : is_some r.control ≡ true
  pub state : r.state ≡ state_of position
  pub bytes : r.encoded ++ s ≡ bytes_of r.user position
  pub whole : r.decoded ++ content_of position ≡ total

-- A measure that a turn which goes on makes less.
abbrev pub rank : ReadState → ℕ
rank (content command n m) = 2
rank (padding command n) = 1
rank _ = 0

abbrev pub weight : VisionReader → ℕ
weight r = length r.encoded + rank r.state

-- At the end of the input, nothing decoded means that there is nothing left.
abbrev pub IsGoodTurn : Bool → VisionReader → Text → Text → Turn → Type 0
IsGoodTurn eof r s total (again next) = Follows next s total × (weight next < weight r)
IsGoodTurn eof r s total (done next) =
    Follows next s total × (eof ≡ true → next.decoded ≡ [] → total ≡ [])
IsGoodTurn eof r s total (failed e) = ⊥
