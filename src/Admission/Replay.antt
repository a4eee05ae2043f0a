-- ===== src/Admission/Replay.antt =====
-- The replay state of the verifier: bounded, with its own identifiers, and no two entries that clash.
pub mod Lists
pub mod Steps
pub mod Sound
pub mod Once
