-- ===== src/Cache.antt =====
-- The in-process file cache (iruka_vfs/cache, `models.py`, `runtime_state.py`).
pub mod Ops
pub mod Worker
pub mod Eviction
pub mod Accounting
pub mod Writes
pub mod Flushing
