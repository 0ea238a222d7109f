-- ===== src/Editing.antt =====
-- Edits of file contents (iruka_vfs/runtime/editing.py).
pub mod Slices
pub mod Patch
pub mod Hunks
