-- ===== src/Ntfy.antt =====
-- The reply queue of the ntfy scripts.
pub mod Message
pub mod Queue
pub mod Listener
pub mod Laws
pub mod Order
pub mod Moves
pub mod Runs
mod Tests
