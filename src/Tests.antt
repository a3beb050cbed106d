-- ===== src/Tests.antt =====
-- Concrete inputs at which the theorems are applied.
mod Files
mod Recoveries
mod Runs
mod Pipelines
mod Crashes
mod Warned
mod Tags
mod Bindings
mod Stores
mod Durables
mod Contexts
mod Registries
mod Coordinates
mod Stages
