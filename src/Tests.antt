-- ===== src/Tests.antt =====
-- Runs of the model, and the theorems at concrete data.
mod Guidance
mod Cache
mod Mirror
mod Command
mod Editing
mod Store
mod LocalStore
mod Flush
mod Runtime
mod Host
mod Paths
