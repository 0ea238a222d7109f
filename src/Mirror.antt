-- ===== src/Mirror.antt =====
-- The in-memory mirror of a workspace (iruka_vfs/mirror, iruka_vfs/runtime/filesystem.py).
pub mod Indexing
pub mod Mutate
pub mod WellFormed
pub mod Ancestry
pub mod Rebuild
pub mod Create
pub mod Write
