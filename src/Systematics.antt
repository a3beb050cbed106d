-- ===== src/Systematics.antt =====
-- systematics/: the tags of variations, the points that they name, the registry of a Session's points,
-- and the lineage of event contexts.
pub mod Digits
pub mod Grammar
pub mod Tags
pub mod Lineage
pub mod Points
pub mod Registry
