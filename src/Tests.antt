-- ===== src/Tests.antt =====
-- Runs of the development at concrete inputs.
pub mod Tables
pub mod Playlists
pub mod Frames
pub mod Encoded
pub mod Answers
pub mod Documents
pub mod Dispatch
pub mod Pool
pub mod Incoming
pub mod Media
pub mod Memory
pub mod Handlers
pub mod Storage
pub mod Locks
pub mod Accounts
pub mod Logins
pub mod Queue
pub mod Slices
pub mod Uploads
pub mod Registry
