-- ===== src/Checkpoint/Failures.antt =====
-- A workspace whose checkpoints failed too often is not enqueued again by itself.
use iruka_virtual_file_syste.Prelude.{
  ℕ, ◌+◌, ◌≡◌, refl, true, false, some, leb, get_or, arith, beq_refl, list_eq, nat_eq,
}
use iruka_virtual_file_syste.Dict.{get}
use iruka_virtual_file_syste.Dict.Laws.{get-put}
use iruka_virtual_file_syste.Model.{Metadata}
use iruka_virtual_file_syste.Store.{
  WorkspaceStateRef, LocalCheckpointState, queue_token, enqueue_workspace_checkpoint,
  increment_retry_count, set_dead_letter_payload, add_dead_letter,
}
use iruka_virtual_file_syste.Checkpoint.{record_checkpoint_failure}

enqueue_held :
    (ref : WorkspaceStateRef) (due_at : ℕ) (payload : Metadata) (st : LocalCheckpointState)
    → get (queue_token ref) st.dead_letter_payloads ≡ some payload
    → enqueue_workspace_checkpoint ref due_at false st ≡ st
unfolding enqueue_workspace_checkpoint
enqueue_held ref due_at payload st e = rw (e, enqueue_workspace_checkpoint) refl

-- The failures of a workspace are counted. From the given number on, which counts as 1 if it is
-- 0, a failure makes the workspace a dead letter, and enqueueing it then without force leaves the
-- store as it is.
pub record_checkpoint_failure_lem :
    (max_failures due_at : ℕ) (ref : WorkspaceStateRef) (payload : ℕ → Metadata)
    (st : LocalCheckpointState)
    → (leb max_failures (get_or (get (queue_token ref) st.retry_counts) 0 + 1)) ≡ true
    → (st' : LocalCheckpointState) × (record_checkpoint_failure max_failures ref payload st
        ≡ (true, get_or (get (queue_token ref) st.retry_counts) 0 + 1, st'))
      × (enqueue_workspace_checkpoint ref due_at false st' ≡ st')
unfolding record_checkpoint_failure increment_retry_count set_dead_letter_payload
record_checkpoint_failure_lem max_failures due_at ref payload st h =
    let n = get_or (get (queue_token ref) st.retry_counts) 0 + 1 in
    let st' =
      set_dead_letter_payload ref (payload n)
        (add_dead_letter ref (increment_retry_count ref st).1) in
    (
      st',
      rw h (ground arith),
      enqueue_held ref due_at (payload n) st'
          (rw get-put (ground (arith, beq_refl (queue_token ref)))),
    )
