-- ===== src/Journal.antt =====
-- The journal of work in flight of internal/journal/journal.go: entries that a running piece of
-- work heartbeats, and the sweep that resumes or abandons what was interrupted.
pub mod Entry
pub mod Handle
pub mod Recovery
pub mod Starts
pub mod Marked
pub mod Marks
pub mod Resumption
