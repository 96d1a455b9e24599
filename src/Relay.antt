-- ===== src/Relay.antt =====
-- crates/relay/src/lib.rs: the relay's handlers. Its state and surroundings are in State, and a
-- handler is a step that may fail (Prelude/Io). The handlers are spread over the children by what
-- they are about.
pub mod State
pub mod Checks
pub mod Steps
pub mod Pruning
pub mod Signatures
pub mod Verifying
pub mod Daemons
pub mod Tokens
pub mod Codes
pub mod Replay
pub mod Signers
pub mod Bound
pub mod Pruned
pub mod Keys
pub mod Single
pub mod Resolved
pub mod Held
pub mod Cap
mod Fixtures
mod Tests
mod CodeTests
mod TokenTests
