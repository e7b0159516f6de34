-- ===== src/Client.antt =====
-- The Qt client: what comes from the session server, and what its dialogs send.
pub mod Incoming
pub mod Answers
