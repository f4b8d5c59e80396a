-- ===== src/Server.antt =====
-- server.py: `ClientHandler` and `DistResServer` over one state, an event at a time.
pub mod World
pub mod Session
pub mod Handlers
pub mod Publication
pub mod Slots
pub mod Admission
pub mod Preserves
pub mod Stable
pub mod Requests
pub mod Events
pub mod Invariant
pub mod Capacity
pub mod Relogin
pub mod HalfOpen
pub mod Silent
pub mod Display
pub mod Messages
pub mod Replies
mod Tests
pub mod Frame
pub mod Commits
pub mod Logins
pub mod Updates
pub mod Accepting
