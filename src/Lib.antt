-- ===== src/Lib.antt =====
-- Aerion is a proxy kernel: protocol listeners authenticate a credential, attach the session to a
-- relay, and account for its traffic. This library models the parts of it below and proves what
-- they promise.
--
-- Base: the shared helpers (tests, lists, results, maps, searches, bit masks, big-endian bytes,
--   UTF-8 text and the parsing of numbers).
-- Net: the addresses of std::net, with the flow information and the scope of an IPv6 one, and their
--   text form. No wire form carries these two, so a decoded address has 0 for them.
-- Core: src/core.rs, src/core/events.rs and src/core/limiter.rs. `Core.Types` is the state, with
--   an explicit heap for what the source shares by Arc; `Core.Events` the event bus, with
--   the drop of a receiver as a step; `Core.Limiter` the rate limiter; `Core.User` the methods of
--   UserState; `Core.User.Traffic` its record_traffic; `Core.Table` the methods of ProxyCore. A
--   method under a lock is one step.
--   What other tasks do while record_traffic sleeps is an argument of it, and
--   `Core.User.Traffic.Interleave` has the steps of many records interleaved.
-- Replay: src/replay_cache.rs; Fragments: src/udp_fragments.rs; Padding: src/padding.rs.
-- Protocol: src/protocol.rs. `Protocol.Frame` is encode_frame and read_frame, `Protocol.Padded` the
--   PaddedFrameWriter, `Protocol.Target` the target addresses, `Protocol.Preface` the authentication
--   preface, `Protocol.Settings` the announced settings. A stream that is read is the list of the
--   bytes still to come, one that is written the bytes written; write failures and flushes are left
--   out. `read_frames` runs on fuel, and as many steps as there are frames are enough.
-- Uot: src/uot.rs and, in `Uot.Chunks`, the receive loop of src/server.rs with its buffer limit.
--   `drain` runs on fuel of one more than the pending bytes, which is enough since a packet is
--   never empty. `Uot.Sequence` encodes a list of datagrams.
-- Routing: src/routing.rs: `try_decide` and what it calls; `Routing.Parse` has the text forms.
--   `Routing.Rules` says when a rule matches without the code's order of tests. The parser of
--   std::net::IpAddr and the regular expressions (their compiler and their test) are arguments.
-- Tuic: src/tuic.rs, the UDP packets: the sender, and in `Tuic.Receive` the map of buffers (with
--   Fragments) and the receiving client. `Tuic.Frames` is about the split, `Tuic.Reassembly` and
--   `Tuic.Delivery` about the buffers. A datagram is one list of bytes.
-- Vision: src/vless_vision.rs. `decode_available` is a loop of turns on fuel of the pending bytes and
--   four more, enough for every input; `Vision.Reader` is poll_read, `Vision.Encoder` the writer and
--   `Vision.Probe` the TLS filter. `Vision.Blocks` says where a reader stands in a stream, and
--   `Vision.Streams` joins it with the encoder. The inner stream is the list of the chunks
--   that its reads give, each within the scratch buffer of 8192 bytes.
-- Xudp: the packets of src/vless_xudp.rs; `Xudp.Sessions` the destination remembered from one chunk to
--   the next.
--
-- Conventions: a byte string or text is the list of its bytes; a u64 and the like is a native
-- number with its wrap written out; an Instant is a number of nanoseconds and the clock an argument.
-- A HashMap is an association list in insertion order. Not modelled: locks (poisoning), logging,
-- sockets and timers, nor the other protocols and their loops, which stand on third-party stacks and
-- cryptography. SHA-256, MD5 and the float quotient of the rate limiter are arguments, and so are the
-- numbers drawn for the padding and what getrandom gives Vision, its failures included.
pub mod Base
pub mod Net
pub mod Core
pub mod Replay
pub mod Fragments
pub mod Padding
pub mod Protocol
pub mod Tuic
pub mod Uot
pub mod Vision
pub mod Xudp
pub mod Routing
