-- ===== src/Tailer.antt =====
-- internal/tailer: the watch over the pods of a namespace, and a tailer for each container.
pub mod Level
pub mod Key
pub mod Markers
pub mod Manager
pub mod Run
pub mod Ingest
pub mod Tail
mod Tests
