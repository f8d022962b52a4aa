-- ===== src/Addon.antt =====
-- addon.hpp and addon.cpp: fcitx on one side, the engine and the transport on the other.
pub mod Opening
pub mod State
pub mod Contexts
pub mod Dispatch
pub mod Handlers
pub mod FollowUps
pub mod Termination
pub mod Preserving
pub mod Link
pub mod Delivery
pub mod Commits
pub mod Keys
pub mod History
pub mod Start
pub mod Soundness
pub mod Identity
mod Tests
