-- ===== src/Flush.antt =====
-- `flush_workspace_mirror` of iruka_vfs/mirror/checkpoint.py: the rounds that write a batch of nodes
-- to the repositories, the confirmation of the batch, and the flush that they make up.
pub mod Cycle
pub mod Ends
pub mod Leftovers
pub mod Kept
pub mod Ordered
pub mod Rounds
pub mod Stuck
pub mod Worker
use iruka_virtual_file_syste.Prelude.{
  ℕ, zero, suc, ◌+◌, Bool, true, false, not, ◌&&◌, ◌||◌, Option, none, some, List, [], ◌∷◌, ◌++◌,
  map, ℤ, pos, negsuc, int_eq, nat_eq, list_eq, ◌==◌, length, leb, if◌then◌else◌, Eq,
}
use iruka_virtual_file_syste.Text.{Text, text}
use iruka_virtual_file_syste.Dict.{Dict, get}
use iruka_virtual_file_syste.Result.{Result, Error, ok, raise, value_error, diverges, ◌>>=◌}
use iruka_virtual_file_syste.Model.{
  Node, WorkspaceMirror, Value, text_value, flag, paths, path_lists, Metadata,
}
use iruka_virtual_file_syste.Mirror.Indexing.{rebuild_workspace_mirror_indexes_locked}
use iruka_virtual_file_syste.Store.{
  WorkspaceStateRef, LocalCheckpointState, clear_workspace_dirty, set_error_payload,
  clear_error_payload,
}
use iruka_virtual_file_syste.Repositories.{
  RepoState, create_node, update_node_content, update_session_cwd, update_workspace_metadata,
}
use iruka_virtual_file_syste.Checkpoint.{
  Snapshot, remap_payload_node_ids, remap_of, remapped, move_nodes, remap_nodes, discard_flushed,
  snapshot_dirty_batch_locked, clear_checkpoint_failure_state, is_filled,
}
use iruka_virtual_file_syste.LocalStore.{LocalState, load_workspace_mirror, set_workspace_mirror}

-- `a == b` of dictionaries: the same keys with the same values, in any order
unfoldable pub same_entries {ℓ} : {V : Type ℓ} → (V → V → Bool) → Dict Text V → Dict Text V → Bool
same_entries same [] d = true
same_entries same ((k, v) ∷ rest) d = holds same v (get k d) && same_entries same rest d
  where
    holds : {V : Type ℓ} → (V → V → Bool) → V → Option V → Bool
    holds same v none = false
    holds same v (some w) = same v w

unfoldable pub same_dict {ℓ} : {V : Type ℓ} → (V → V → Bool) → Dict Text V → Dict Text V → Bool
unfolding same_entries
same_dict same a b = length a == length b && same_entries same a b

unfoldable pub same_flag : Bool → Bool → Bool
same_flag true b = b
same_flag false b = not b

unfoldable pub same_value : Value → Value → Bool
unfolding same_dict same_flag
same_value (text_value a) (text_value b) = a == b
same_value (flag a) (flag b) = same_flag a b
same_value (paths a) (paths b) = a == b
same_value (path_lists a) (path_lists b) = same_dict (λ p q. p == q) a b
same_value a b = false

-- A round of the writing loop: the ids so far, the payloads put off, whether one was written, and
-- the repositories.
pub record Round : Type 0 where
  pub remapped_ids : List (ℤ × ℤ)
  pub next_round : List Node
  pub progress_made : Bool
  pub repo : RepoState

-- The parent that a payload is written with; `none` where it is temporary and has no real id yet.
unfoldable pub parent_for : List (ℤ × ℤ) → Option ℤ → Option (Option ℤ)
parent_for remapped_ids none = some none
parent_for remapped_ids (some (pos p)) = some (some (pos p))
parent_for remapped_ids (some (negsuc p)) = elim (get (negsuc p) remapped_ids) [
  | none ↦ none
  | some real_id ↦ some (some real_id)
]

-- A positive id is updated; any other is created and remapped.
unfoldable pub write_payload : Text → ℤ → ℤ → Node → Round → Round
write_payload tenant_key workspace_id (pos (suc n)) payload r = record r {
  progress_made = true;
  repo =
      update_node_content (pos (suc n)) tenant_key payload.parent_id payload.name payload.node_type
        payload.content_text payload.version_no r.repo;
}
write_payload tenant_key workspace_id temp_id payload r =
    let (row, repo) =
      create_node tenant_key workspace_id payload.parent_id payload.name payload.node_type
        payload.content_text payload.version_no r.repo in
    record r {
      progress_made = true;
      remapped_ids = r.remapped_ids ++ (temp_id, row.node.id) ∷ [];
      repo = repo;
    }

unfoldable pub flush_payload : Text → ℤ → Node → Round → Round
flush_payload tenant_key workspace_id payload r =
    elim (parent_for r.remapped_ids payload.parent_id) [
      | none ↦ record r { next_round = r.next_round ++ payload ∷ [] }
      | some parent_id ↦
          write_payload tenant_key workspace_id payload.id
            (record payload { parent_id = parent_id }) r
    ]

unfoldable pub flush_round : Text → ℤ → List Node → Round → Round
flush_round tenant_key workspace_id [] r = r
flush_round tenant_key workspace_id (payload ∷ payloads) r =
    flush_round tenant_key workspace_id payloads (flush_payload tenant_key workspace_id payload r)

-- The loop while payloads are pending, with what it leaves of the repositories.
unfoldable pub flush_rounds :
    Text → ℤ → ℕ → List Node → List (ℤ × ℤ) → RepoState → Result (List (ℤ × ℤ)) × RepoState
flush_rounds tenant_key workspace_id fuel [] remapped_ids repo = (ok remapped_ids, repo)
flush_rounds tenant_key workspace_id zero (p ∷ pending) remapped_ids repo = (raise diverges, repo)
flush_rounds tenant_key workspace_id (suc fuel) (p ∷ pending) remapped_ids repo =
    let r = flush_round tenant_key workspace_id (p ∷ pending) (record {
      remapped_ids = remapped_ids;
      next_round = [];
      progress_made = false;
      repo = repo;
    }) in
    let rest = flush_rounds tenant_key workspace_id fuel r.next_round r.remapped_ids r.repo in
    if r.progress_made
    then rest
    else (raise (value_error (text "flush could not remap temporary parent ids")), r.repo)

-- The marks that a confirmation takes off the mirror, whose ids are remapped.
unfoldable pub mark_flushed : Snapshot → List (ℤ × ℤ) → WorkspaceMirror → WorkspaceMirror
mark_flushed snapshot remapped_ids indexed =
    let remap = remap_of [] remapped_ids in
    let marked =
      discard_flushed (map (remapped remap) snapshot.dirty_content_ids)
        (map (remapped remap) snapshot.dirty_structure_ids)
        (remap_payload_node_ids snapshot.dirty_payloads remapped_ids) indexed in
    record marked {
      dirty_session =
          if snapshot.session_dirty && marked.cwd_node_id == snapshot.cwd_node_id
          then false
          else marked.dirty_session;
      dirty_workspace_metadata =
          if snapshot.metadata_dirty
            && same_dict same_value marked.workspace_metadata snapshot.workspace_metadata
          then false
          else marked.dirty_workspace_metadata;
      checkpoint_revision =
          if leb snapshot.snapshot_revision marked.checkpoint_revision
          then marked.checkpoint_revision
          else snapshot.snapshot_revision;
    }

-- The nodes under their real ids.
unfoldable pub move_flushed : List (ℤ × ℤ) → WorkspaceMirror → WorkspaceMirror
move_flushed remapped_ids current =
    let remap = remap_of [] remapped_ids in
    let moved = move_nodes remap remapped_ids current in
    record moved { nodes = remap_nodes remap moved.nodes }

-- `_confirm_flushed_snapshot_locked`
unfoldable pub confirm_flushed_snapshot_locked :
    Snapshot → List (ℤ × ℤ) → WorkspaceMirror → Result WorkspaceMirror
confirm_flushed_snapshot_locked snapshot remapped_ids current = do
  indexed ← rebuild_workspace_mirror_indexes_locked (move_flushed remapped_ids current)
  ok (mark_flushed snapshot remapped_ids indexed)

-- What a flush reads and changes: the store, the repositories, and whether a session maker is set.
pub record FlushState : Type 0 where
  pub store : LocalState
  pub repo : RepoState
  pub session_maker : Bool

-- The constants of the checkpoint, what a rollback leaves of the repositories before and after the
-- writes, and the payloads that record an error, in which stand times and tracebacks.
pub record Environment : Type 0 where
  pub flush_batch : ℕ
  pub max_failures : ℕ
  pub debounce : ℕ
  pub retry_delay : ℕ → ℕ
  pub rollback : RepoState → RepoState → RepoState
  pub flush_error : Snapshot → Error → Metadata
  pub worker_error : Error → Metadata
  pub returned_false : Metadata
  pub dead_letter : WorkspaceStateRef → Text → Metadata → ℕ → Metadata

abbrev pub on_checkpoints : (LocalCheckpointState → LocalCheckpointState) → FlushState → FlushState
on_checkpoints f st = record st {
  store = record st.store { local_checkpoint_state = f st.store.local_checkpoint_state };
}

-- `_load_checkpoint_transaction_context`: the mirror is loaded again once the lock is held
unfoldable pub load_checkpoint_transaction_context :
    Option WorkspaceMirror → WorkspaceStateRef → FlushState → Option WorkspaceMirror × FlushState
load_checkpoint_transaction_context mirror ref st =
    elim (first mirror (load_workspace_mirror ref st.store)) [
      | none ↦ (none, on_checkpoints (clear_workspace_dirty ref) st)
      | some current ↦ elim (load_workspace_mirror ref st.store) [
        | none ↦ (none, on_checkpoints (clear_workspace_dirty ref) st)
        | some loaded ↦ (some loaded, st)
      ]
    ]
  where
    first : Option WorkspaceMirror → Option WorkspaceMirror → Option WorkspaceMirror
    first none loaded = loaded
    first (some given) loaded = some given
