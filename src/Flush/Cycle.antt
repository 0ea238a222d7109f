-- ===== src/Flush/Cycle.antt =====
-- `flush_workspace_mirror` and `run_checkpoint_cycle` of iruka_vfs/mirror/checkpoint.py.
use iruka_virtual_file_syste.Prelude.{
  ℕ, ◌+◌, Bool, true, false, not, ◌&&◌, Option, none, some, List, [], ◌∷◌, ℤ, length, if◌then◌else◌,
}
use iruka_virtual_file_syste.Text.{Text}
use iruka_virtual_file_syste.Result.{Result, ok, raise, ◌>>=◌}
use iruka_virtual_file_syste.Model.{WorkspaceMirror}
use iruka_virtual_file_syste.Store.{
  WorkspaceStateRef, clear_workspace_dirty, set_error_payload, clear_error_payload,
  clear_checkpoint_schedule, enqueue_workspace_checkpoint,
}
use iruka_virtual_file_syste.Repositories.{RepoState, update_session_cwd, update_workspace_metadata}
use iruka_virtual_file_syste.Checkpoint.{
  Snapshot, snapshot_dirty_batch_locked, clear_checkpoint_failure_state, is_filled,
  mirror_has_dirty_state,
}
use iruka_virtual_file_syste.Context.{effective_tenant_key, active_workspace_scope}
use iruka_virtual_file_syste.LocalStore.{
  LocalState, get_workspace_mirror, load_workspace_mirror, set_workspace_mirror, workspace_ref,
}
use iruka_virtual_file_syste.Flush.{
  FlushState, Environment, on_checkpoints, flush_rounds, confirm_flushed_snapshot_locked,
  load_checkpoint_transaction_context,
}

-- The writes of the current directory and the metadata that follow the nodes.
unfoldable pub write_marks : WorkspaceMirror → Snapshot → RepoState → RepoState
write_marks mirror snapshot repo =
    let moved =
      if snapshot.session_dirty
      then update_session_cwd mirror.session_id mirror.tenant_key snapshot.cwd_node_id repo
      else repo in
    if snapshot.metadata_dirty
    then update_workspace_metadata mirror.workspace_id mirror.tenant_key snapshot.workspace_metadata
        moved
    else moved

-- The confirmation, of the mirror that the store holds after the writes.
unfoldable pub confirm_flush :
    ℕ → WorkspaceStateRef → Snapshot → List (ℤ × ℤ) → FlushState → Result (Bool × FlushState)
confirm_flush now ref snapshot remapped_ids st = elim (load_workspace_mirror ref st.store) [
  | none ↦ ok (true, on_checkpoints (λ c. clear_error_payload ref (clear_workspace_dirty ref c)) st)
  | some current ↦ do
    confirmed ← confirm_flushed_snapshot_locked snapshot remapped_ids current
    ok (
      true,
      on_checkpoints (λ c. clear_checkpoint_failure_state ref (clear_error_payload ref c))
          (record st { store = set_workspace_mirror now confirmed st.store }),
    )
]

-- What follows the rounds: the commit, or the rollback with the error's payload.
unfoldable pub finish_flush :
    Environment
    → ℕ
    → WorkspaceStateRef
    → WorkspaceMirror
    → Snapshot
    → Result (List (ℤ × ℤ)) × RepoState
    → FlushState
    → Result (Bool × FlushState)
finish_flush env now ref mirror snapshot (ok remapped_ids, repo) st =
    confirm_flush now ref snapshot remapped_ids
      (record st { repo = write_marks mirror snapshot repo })
finish_flush env now ref mirror snapshot (raise e, repo) st = ok (
  false,
  on_checkpoints (set_error_payload ref (env.flush_error snapshot e))
      (record st { repo = env.rollback st.repo repo }),
)

-- The flush of the mirror that the transaction holds.
unfoldable pub flush_held :
    Environment → ℕ → WorkspaceStateRef → WorkspaceMirror → FlushState → Result (Bool × FlushState)
flush_held env now ref mirror st =
    let snapshot = snapshot_dirty_batch_locked env.flush_batch mirror in
    if not (is_filled snapshot.dirty_ids)
      && not snapshot.session_dirty
      && not snapshot.metadata_dirty
    then ok (true, on_checkpoints (clear_workspace_dirty ref) st)
    else finish_flush env now ref mirror snapshot
        (flush_rounds mirror.tenant_key mirror.workspace_id (length snapshot.dirty_payloads)
          snapshot.dirty_payloads [] st.repo)
        st

unfoldable pub flush_loaded :
    Environment
    → ℕ
    → WorkspaceStateRef
    → Option WorkspaceMirror × FlushState
    → Result (Bool × FlushState)
flush_loaded env now ref (none, st) = ok (true, st)
flush_loaded env now ref (some mirror, st) = flush_held env now ref mirror st

-- `flush_workspace_mirror`, of a mirror that may be given; the locks are free
unfoldable pub flush_workspace_mirror :
    Environment
    → ℕ
    → Option WorkspaceMirror
    → WorkspaceStateRef
    → FlushState
    → Result (Bool × FlushState)
flush_workspace_mirror env now given ref st =
    if not st.session_maker
    then ok (false, st)
    else flush_loaded env now ref (load_checkpoint_transaction_context given ref st)

-- `enqueue_workspace_checkpoint` of `checkpoint.py`, which delays by the debounce time
unfoldable pub enqueue_debounced : Environment → ℕ → WorkspaceStateRef → FlushState → FlushState
enqueue_debounced env now ref =
    on_checkpoints (enqueue_workspace_checkpoint ref (now + env.debounce) false)

-- Whether the store's mirror is there and has dirty marks.
unfoldable pub has_dirty_mirror : WorkspaceStateRef → FlushState → Bool
has_dirty_mirror ref st = elim (load_workspace_mirror ref st.store) [
  | none ↦ false
  | some current ↦ mirror_has_dirty_state current
]

-- What `run_checkpoint_cycle` does after the flush: the result, whether more is dirty, and the state.
unfoldable pub reschedule :
    Environment → ℕ → WorkspaceStateRef → Bool → FlushState → Bool × Bool × FlushState
reschedule env now ref flushed st =
    let cleared = on_checkpoints (clear_checkpoint_schedule ref) st in
    if has_dirty_mirror ref cleared
    then (flushed, true, enqueue_debounced env now ref cleared)
    else (flushed, false, cleared)

unfoldable pub run_checkpoint_cycle :
    Environment → ℕ → WorkspaceStateRef → FlushState → Result (Bool × Bool × FlushState)
run_checkpoint_cycle env now ref st = do
  (flushed, after) ← flush_workspace_mirror env now none ref st
  ok (reschedule env now ref flushed after)

-- `resolve_workspace_ref_for_flush`; an empty scope counts as none
unfoldable pub resolve_workspace_ref_for_flush :
    ℤ → Text → Option Text → LocalState → Option WorkspaceStateRef
resolve_workspace_ref_for_flush workspace_id tenant_key scope_key st =
    found (scoped scope_key (get_workspace_mirror workspace_id tenant_key none st))
  where
    scoped : Option Text → Option WorkspaceMirror → Option WorkspaceMirror
    scoped none unscoped = unscoped
    scoped (some []) unscoped = unscoped
    scoped (some (c ∷ scope)) unscoped =
        elim (get_workspace_mirror workspace_id tenant_key (some (c ∷ scope)) st) [
          | some mirror ↦ some mirror
          | none ↦ unscoped
        ]

    found : Option WorkspaceMirror → Option WorkspaceStateRef
    found none = none
    found (some mirror) = some (workspace_ref mirror)

-- `flush_workspace` of iruka_vfs/service_ops/file_api.py
unfoldable pub flush_workspace :
    Environment → ℕ → ℤ → Text → FlushState → Result (Bool × FlushState)
flush_workspace env now workspace_id tenant_id st =
    elim (resolve_workspace_ref_for_flush workspace_id
      (effective_tenant_key st.store.settings st.store.context tenant_id)
      (active_workspace_scope st.store.context) st.store) [
        | none ↦ ok (true, st)
        | some ref ↦ do
          (flushed, more, st') ← run_checkpoint_cycle env now ref st
          ok (flushed, st')
      ]
