-- ===== src/Sessions.antt =====
-- src/hooks, the session tracker: session-tracker-helpers.ts and session-tracker.ts. Sessions are known by
-- ids, keys and runs; the tracker keeps one record for a logical session, and three indices by which a
-- record is found.
pub mod Keys
pub mod Routes
pub mod Index
pub mod Records
pub mod Tracker
pub mod Queries
