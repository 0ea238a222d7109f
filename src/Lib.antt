-- ===== src/Lib.antt =====
-- A model of iruka_vfs, a virtual file system in which agents run shell-like commands. A workspace
-- is a tree of file nodes that a mirror holds in memory; commands are parsed, run against the
-- mirror, and the changes reach the database through a cache or a checkpoint. After each command
-- the agent gets guidance on what it has written and not yet read back.
--
-- Which file models which part, by paths from the repository's root:
-- - Mirror: iruka_vfs/mirror/indexing.py and the mutations of iruka_vfs/runtime (filesystem.py,
--   fs_commands.py, executor.py). Mirror/Indexing has the paths of nodes, the sorted lists of
--   children and the two indexes; Mirror/Mutate has one function for each `_mutate_...`, which
--   takes a mirror and returns its result, whether it changed something, and the new mirror.
--   Mirror/WellFormed is the invariant; Ancestry, Rebuild, Create and Write are lemmas on it.
-- - Command: iruka_vfs/command_parser.py and iruka_vfs/parse_errors.py. Quotes and Scan are the
--   scanners, Chain is `split_chain`, Tails, Heredoc, Tokens and Pipeline are the phases of
--   `parse_pipeline_and_redirect_detailed`, Options is `parse_options`. The lexers of `shlex` and
--   `str.split` are parameters.
-- - Runtime: what runs the commands of a workspace that has a mirror. World has the state that
--   they pass on, the outcome of a command, and `mutate_workspace_mirror`; Search, Targets, Files,
--   Directories, Transfers, Texts, Edits, Find, Listing, Matching, Redirects and Help are the
--   commands (iruka_vfs/runtime/search.py, fs_commands.py, filesystem.py, editing.py, executor.py,
--   iruka_vfs/tree_view.py, iruka_vfs/write_conflicts.py,
--   iruka_vfs/integrations/agent/path_guidance.py); Dispatch is `exec_argv` and Executor the
--   pipelines, redirects and chains around it. Chains, Confinement, Escapes, Silence, Unseen,
--   Writes, Replacing, Marking, Nesting and Depth are theorems on them.
-- - Editing: `apply_unified_patch` of iruka_vfs/runtime/editing.py, with Python's slices.
-- - Guidance: iruka_vfs/integrations/agent/guidance.py.
-- - Cache: iruka_vfs/cache/ops.py and the flush of one file by iruka_vfs/cache/worker.py.
-- - Context, Store and LocalStore: iruka_vfs/mirror/context.py and keys.py, the checkpoint state of
--   `LocalMemoryStateStore` in iruka_vfs/workspace_state_store.py, and its mirrors with their
--   indexes. LocalStore/Implements and Refinement relate it to a map of mirrors; Tokens is
--   on its queue tokens.
-- - Checkpoint and Flush: iruka_vfs/mirror/checkpoint.py. Checkpoint has the snapshot, the
--   remapping and the failures; Flush the rounds of a flush and its confirmation, Flush/Cycle
--   `flush_workspace_mirror` and `run_checkpoint_cycle`, Flush/Worker the rounds of the worker.
--   Rounds, Kept, Ends, Ordered, Stuck and Leftovers are theorems on them. Limits of the environment
--   are parameters.
-- - Paths: iruka_vfs/pathing (Resolve is `resolve_path` and its relatives), and the rules on paths
--   of iruka_vfs/service_ops/bootstrap.py and file_api.py (Normalize, with Clean on its results).
-- - Host: the access modes of iruka_vfs/integrations/agent/access_mode.py, and the host's reads and
--   writes in iruka_vfs/service_ops/bootstrap.py and file_api.py, of a workspace that is ready.
--   Host/Writes is on what a write went through.
-- - Repositories: workspaces, sessions and nodes of iruka_vfs/in_memory_repositories.py.
-- - Model has the types of iruka_vfs/models.py; Text, Dict, Sorting and Result model Python's
--   strings, dictionaries, `sorted` and exceptions; Prelude has what all of them use.
-- The parser hands commands to the runtime, which changes the mirror; editing gives new contents
-- to the mirror's write; the cache stands in its place where a workspace has no mirror.
--
-- Bounds and fuel: numbers are unbounded, as in Python; `int` where it can be negative is ℤ. The
-- walk from a node to the root takes the number of nodes and one as fuel, which is enough on a
-- tree; the digits of a number take the number itself. The eviction loop has its fuel and the
-- proof that it is enough in Cache; the rounds of a flush have theirs in Flush/Ends. Where the
-- program raises, the model returns the exception as a value, and a loop that never ends is the
-- value `diverges`.
--
-- The commands take the functions of Python's library that they call as the record Externals. The
-- world holds one workspace, whose mirror is the active one, in the store of the process, with the
-- repositories in memory; a clock stands for the times that a checkpoint is enqueued with.
-- LocalStore and Flush have the store of all workspaces. After an exception the world is not
-- modelled. The searches through the tree, `tree` and nested commands have fuel, which the number
-- of nodes and the length of the command give.
--
-- Not modelled: time stamps, locks and threads (a step is what runs under a lock), the branches of
-- the runtime for a workspace without a mirror, entries of a result's artifacts that are
-- themselves artifacts, the making of a workspace from its rows, the digits of other scripts than
-- ASCII, the SQL databases and Redis, serialization. Text is a list of code points.
pub mod Prelude
pub mod Text
pub mod Dict
pub mod Result
pub mod Sorting
pub mod Model
pub mod Mirror
pub mod Guidance
pub mod Cache
pub mod Command
pub mod Editing
pub mod Context
pub mod Store
pub mod Repositories
pub mod LocalStore
pub mod Flush
pub mod Checkpoint
pub mod Paths
pub mod Runtime
pub mod Host
pub mod Tests
