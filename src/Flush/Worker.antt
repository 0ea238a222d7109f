-- ===== src/Flush/Worker.antt =====
-- A round of `workspace_checkpoint_worker` of iruka_vfs/mirror/checkpoint.py.
use iruka_virtual_file_syste.Prelude.{
  ℕ, ◌+◌, Bool, true, false, Option, none, some, [], ◌∷◌, ℤ, ltb, if◌then◌else◌,
}
use iruka_virtual_file_syste.Text.{Text, text}
use iruka_virtual_file_syste.Result.{Result, Error, ok, ◌>>=◌}
use iruka_virtual_file_syste.Model.{Metadata}
use iruka_virtual_file_syste.Store.{
  WorkspaceStateRef, LocalCheckpointState, pop_checkpoint, requeue_checkpoint,
  clear_checkpoint_schedule, get_checkpoint_due_at, get_dead_letter_payload, get_error_payload,
  set_error_payload, enqueue_workspace_checkpoint,
}
use iruka_virtual_file_syste.Checkpoint.{record_checkpoint_failure, clear_checkpoint_failure_state}
use iruka_virtual_file_syste.LocalStore.{workspace_ref_from_token}
use iruka_virtual_file_syste.Flush.{FlushState, Environment, on_checkpoints}
use iruka_virtual_file_syste.Flush.Cycle.{run_checkpoint_cycle}

-- `if store.get_dead_letter_payload(…)`
unfoldable pub is_payload : Option Metadata → Bool
is_payload none = false
is_payload (some []) = false
is_payload (some (entry ∷ payload)) = true

-- `payload or default`
unfoldable pub payload_or : Option Metadata → Metadata → Metadata
payload_or none default = default
payload_or (some []) default = default
payload_or (some (entry ∷ payload)) default = entry ∷ payload

-- The failure is recorded, and the workspace is a dead letter or is tried again after a delay.
unfoldable pub retry_later :
    Environment
    → ℕ
    → WorkspaceStateRef
    → Text
    → Metadata
    → LocalCheckpointState
    → Bool × LocalCheckpointState
retry_later env now ref reason error_payload st =
    let (dead_lettered, failure_count, recorded) =
      record_checkpoint_failure env.max_failures ref (env.dead_letter ref reason error_payload)
        st in
    if dead_lettered then (true, recorded) else (
      false,
      enqueue_workspace_checkpoint ref (now + env.retry_delay failure_count) true recorded,
    )

-- What the worker does with the results of a cycle.
unfoldable pub after_cycle :
    Environment → ℕ → WorkspaceStateRef → Bool × Bool × FlushState → FlushState
after_cycle env now ref (flushed, true, st) = st
after_cycle env now ref (true, false, st) = on_checkpoints (clear_checkpoint_failure_state ref) st
after_cycle env now ref (false, false, st) =
    let payload =
      payload_or (get_error_payload ref st.store.local_checkpoint_state) env.returned_false in
    let (dead_lettered, recorded) =
      retry_later env now ref (text "flush-returned-false") payload
        st.store.local_checkpoint_state in
    on_checkpoints (λ c. if dead_lettered then clear_checkpoint_schedule ref recorded else recorded)
      st

-- The handler of an exception in a round.
unfoldable pub worker_exception :
    Environment → ℕ → WorkspaceStateRef → Error → FlushState → FlushState
worker_exception env now ref e = on_checkpoints (λ c.
    (retry_later env now ref (text "worker-exception") (env.worker_error e)
      (clear_checkpoint_schedule ref (set_error_payload ref (env.worker_error e) c))).1)

-- `due_at` lies ahead
unfoldable pub is_ahead : ℕ → Option ℕ → Bool
is_ahead now none = false
is_ahead now (some due_at) = ltb now due_at

-- A round for a workspace that was popped.
unfoldable pub handle_popped : Environment → ℕ → WorkspaceStateRef → FlushState → Result FlushState
unfolding is_ahead is_payload
handle_popped env now ref st =
    if is_payload (get_dead_letter_payload ref st.store.local_checkpoint_state)
    then ok (on_checkpoints (clear_checkpoint_schedule ref) st)
    else if is_ahead now (get_checkpoint_due_at ref st.store.local_checkpoint_state)
    then ok (on_checkpoints (requeue_checkpoint ref) st)
    else (do cycled ← run_checkpoint_cycle env now ref st; ok (after_cycle env now ref cycled))

-- One round of the worker's loop; an exception is passed to `worker_exception`.
unfoldable pub worker_round : Environment → (Text → Option ℤ) → ℕ → FlushState → Result FlushState
worker_round env parse_int now st = elim (pop_checkpoint st.store.local_checkpoint_state) [
  | none ↦ ok st
  | some (token, popped) ↦
      let st' : FlushState = on_checkpoints (λ _. popped) st in
      elim (workspace_ref_from_token parse_int token) [
        | none ↦ ok st'
        | some ref ↦ handle_popped env now ref st'
      ]
]
