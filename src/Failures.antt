-- ===== src/Failures.antt =====
-- Runs that go on past failed chunks: the labels, dead letters and partials of core/execution.py
-- and what `skip_failed` wraps around a plan's process and combine.
pub mod Labels
pub mod Partials
pub mod Budget
