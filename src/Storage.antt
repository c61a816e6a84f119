-- ===== src/Storage.antt =====
-- internal/storage: the line that is ingested, and a module for each part of the package.
pub mod Line
pub mod Level
pub mod Queue
pub mod Broadcast
pub mod Snippet
pub mod Match
pub mod Shards
pub mod Insert
pub mod Ranks
pub mod Dates
pub mod Times
pub mod LastSeen
pub mod Cursor
pub mod Retention
pub mod Search
pub mod Known
mod Tests
