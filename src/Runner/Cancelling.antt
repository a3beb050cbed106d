-- ===== src/Runner/Cancelling.antt =====
-- A run with a control: how far it comes, what it ends in, and what it gives back.
pub mod Ends
pub mod Reaching
pub mod Whole
pub mod Release
pub mod Closing
