-- ===== src/Core.antt =====
-- src/core.rs with core/events.rs and core/limiter.rs: the multi-user accounting kernel.
-- `Types` has the state, `Events` the event bus, `Limiter` the byte rate limiter, `User` the methods
-- of one user's state, `Table` those of `ProxyCore`.
pub mod Types
pub mod Events
pub mod Limiter
pub mod User
pub mod Table
mod Runs
