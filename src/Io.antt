-- ===== src/Io.antt =====
-- io.hpp and io.cpp: the transport actor.
pub mod State
pub mod Handshake
pub mod Tasks
pub mod Commands
pub mod Validation
pub mod Closing
pub mod Framing
pub mod Publications
pub mod Emits
pub mod Reads
pub mod Races
pub mod Failures
pub mod System
pub mod Untouched
pub mod Authenticity
pub mod Reading
pub mod Connecting
pub mod Writing
pub mod Orderly
pub mod Link
mod Example
mod Tests
