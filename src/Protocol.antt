-- ===== src/Protocol.antt =====
-- src/protocol.rs: the AnyTLS frames, the authentication preface and the target addresses. A byte
-- stream that is read is the list of the bytes still to come; one that is written, what was written.
pub mod Stream
pub mod Frame
pub mod Target
pub mod Preface
pub mod Settings
pub mod Padded
mod Runs
