-- ===== src/Checkpoint.antt =====
-- Checkpoints: the content-addressed store and its journals, and the runs that resume from them.
pub mod Blobs
pub mod Journal
pub mod Protocol
pub mod Resume
pub mod Local
pub mod Shuffle
