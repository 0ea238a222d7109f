-- ===== src/Runtime.antt =====
-- Commands on a workspace that has a mirror (iruka_vfs/runtime, the path rules of
-- iruka_vfs/service_ops/file_api.py, iruka_vfs/mirror/mutation.py).
pub mod World
pub mod Search
pub mod Targets
pub mod Files
pub mod Directories
pub mod Transfers
pub mod Unseen
pub mod Replacing
pub mod Texts
pub mod Edits
pub mod Find
pub mod Listing
pub mod Matching
pub mod Help
pub mod Dispatch
pub mod Redirects
pub mod Executor
pub mod Chains
pub mod Confinement
pub mod Silence
pub mod Writes
pub mod Escapes
pub mod Nesting
pub mod Depth
pub mod Marking
