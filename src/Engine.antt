-- ===== src/Engine.antt =====
-- engine.hpp and engine.cpp: the session state machine between the addon and the transport.
pub mod Opening
pub mod Event
pub mod State
pub mod Session
pub mod Handlers
pub mod Spec
pub mod Refinement
pub mod Run
pub mod Consistency
pub mod Compliance
pub mod Identifiers
pub mod Effects
pub mod Commits
pub mod Delivery
pub mod Lifecycle
mod Tests
