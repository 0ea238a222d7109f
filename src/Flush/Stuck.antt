-- ===== src/Flush/Stuck.antt =====
-- A batch whose temporary parents are not in it cannot be flushed, and the worker does not count
-- the failure.
use iruka_virtual_file_syste.Prelude.{
  ℕ, suc, ◌+◌, ◌≡◌, refl, inl, inr, Bool, true, false, none, some, List, [], ◌∷◌, ◌++◌, ℤ, length,
  contains, list_eq, nat_eq, Bool-cases,
}
use iruka_virtual_file_syste.Text.{Text, text}
use iruka_virtual_file_syste.Dict.{get}
use iruka_virtual_file_syste.Result.{ok, raise, value_error}
use iruka_virtual_file_syste.Model.{Node, WorkspaceMirror}
use iruka_virtual_file_syste.Store.{
  WorkspaceStateRef, LocalCheckpointState, queue_token, get_dead_letter_payload,
  get_checkpoint_due_at, set_error_payload, clear_checkpoint_schedule, enqueue_workspace_checkpoint,
  schedule,
}
use iruka_virtual_file_syste.Store.Queue.{schedule-contains, schedule-due_at}
use iruka_virtual_file_syste.Repositories.{RepoState}
use iruka_virtual_file_syste.Checkpoint.{
  snapshot_dirty_batch_locked, mirror_has_dirty_state, is_filled,
}
use iruka_virtual_file_syste.LocalStore.{load_workspace_mirror}
use iruka_virtual_file_syste.Flush.{
  Round, FlushState, Environment, on_checkpoints, parent_for, flush_round, flush_rounds,
  load_checkpoint_transaction_context,
}
use iruka_virtual_file_syste.Flush.Rounds.{flush_payload-put_off}
use iruka_virtual_file_syste.Flush.Cycle.{
  finish_flush, flush_held, flush_loaded, flush_workspace_mirror, has_dirty_mirror, reschedule,
  enqueue_debounced, run_checkpoint_cycle,
}
use iruka_virtual_file_syste.Flush.Worker.{is_payload, is_ahead, after_cycle, handle_popped}

-- No payload's parent can be resolved.
abbrev pub AllStuck : List (ℤ × ℤ) → List Node → Type 0
AllStuck ids [] = Unit
AllStuck ids (p ∷ ps) = (parent_for ids p.parent_id ≡ none) × AllStuck ids ps

flush_round_stuck :
    (t : Text) (i : ℤ) (ps : List Node) (r : Round)
    → AllStuck r.remapped_ids ps
    → ((flush_round t i ps r).progress_made ≡ r.progress_made)
      × ((flush_round t i ps r).repo ≡ r.repo)
unfolding flush_round
flush_round_stuck t i [] r h = (refl, refl)
flush_round_stuck t i (p ∷ ps) r h =
    let off = record r { next_round = r.next_round ++ p ∷ [] } in
    rw (flush_round, flush_payload-put_off t i p r h.0) (flush_round_stuck t i ps off h.1)

flush_rounds_stuck :
    (t : Text) (i : ℤ) (fuel : ℕ) (p : Node) (ps : List Node) (repo : RepoState)
    → AllStuck [] (p ∷ ps)
    → flush_rounds t i (suc fuel) (p ∷ ps) [] repo
      ≡ (raise (value_error (text "flush could not remap temporary parent ids")), repo)
unfolding flush_rounds
flush_rounds_stuck t i fuel p ps repo h =
    let r : Round = record {
      remapped_ids = [];
      next_round = [];
      progress_made = false;
      repo = repo;
    } in
    let (still, same) = flush_round_stuck t i (p ∷ ps) r h in rw (still, same) refl

-- What a failed flush leaves.
unfoldable pub failed : Environment → WorkspaceStateRef → WorkspaceMirror → FlushState → FlushState
failed env ref mirror st =
    on_checkpoints
      (set_error_payload ref (
        env.flush_error (snapshot_dirty_batch_locked env.flush_batch mirror)
          (value_error (text "flush could not remap temporary parent ids"))))
      (record st { repo = env.rollback st.repo st.repo })

flush_held_stuck :
    (env : Environment) (now : ℕ) (ref : WorkspaceStateRef) (mirror : WorkspaceMirror) (p : Node)
    (ps : List Node) (st : FlushState)
    → (snapshot_dirty_batch_locked env.flush_batch mirror).dirty_payloads ≡ p ∷ ps
    → AllStuck [] (p ∷ ps)
    → is_filled (snapshot_dirty_batch_locked env.flush_batch mirror).dirty_ids ≡ true
    → flush_held env now ref mirror st ≡ ok (false, failed env ref mirror st)
unfolding flush_held failed finish_flush
flush_held_stuck env now ref mirror p ps st e h filled =
    rw
      (
        filled,
        e,
        flush_rounds_stuck mirror.tenant_key mirror.workspace_id (length ps) p ps st.repo h,
      )
      refl

flush_workspace_mirror_stuck :
    (env : Environment) (now : ℕ) (ref : WorkspaceStateRef) (mirror : WorkspaceMirror) (p : Node)
    (ps : List Node) (st : FlushState)
    → st.session_maker ≡ true
    → load_workspace_mirror ref st.store ≡ some mirror
    → (snapshot_dirty_batch_locked env.flush_batch mirror).dirty_payloads ≡ p ∷ ps
    → AllStuck [] (p ∷ ps)
    → is_filled (snapshot_dirty_batch_locked env.flush_batch mirror).dirty_ids ≡ true
    → flush_workspace_mirror env now none ref st ≡ ok (false, failed env ref mirror st)
unfolding flush_workspace_mirror flush_loaded load_checkpoint_transaction_context
flush_workspace_mirror_stuck env now ref mirror p ps st on held e h filled = simp on (
    rw (load_checkpoint_transaction_context, held, held)
      (flush_held_stuck env now ref mirror p ps st e h filled))

-- What the worker leaves after the failed flush.
unfoldable pub rescheduled :
    Environment → ℕ → WorkspaceStateRef → WorkspaceMirror → FlushState → FlushState
rescheduled env now ref mirror st =
    enqueue_debounced env now ref
      (on_checkpoints (clear_checkpoint_schedule ref) (failed env ref mirror st))

run_checkpoint_cycle_stuck :
    (env : Environment) (now : ℕ) (ref : WorkspaceStateRef) (mirror : WorkspaceMirror)
    (st : FlushState)
    → flush_workspace_mirror env now none ref st ≡ ok (false, failed env ref mirror st)
    → load_workspace_mirror ref st.store ≡ some mirror
    → mirror_has_dirty_state mirror ≡ true
    → run_checkpoint_cycle env now ref st ≡ ok (false, true, rescheduled env now ref mirror st)
unfolding run_checkpoint_cycle reschedule has_dirty_mirror rescheduled failed load_workspace_mirror
run_checkpoint_cycle_stuck env now ref mirror st flush held dirty =
    rw (run_checkpoint_cycle, flush, reschedule, has_dirty_mirror, held, dirty) refl

enqueued_after :
    (ref : WorkspaceStateRef) (due : ℕ) (st : LocalCheckpointState)
    → get (queue_token ref) st.dead_letter_payloads ≡ none
    → enqueue_workspace_checkpoint ref due false st ≡ schedule (queue_token ref) due st
unfolding enqueue_workspace_checkpoint
enqueued_after ref due st e = rw (enqueue_workspace_checkpoint, e) refl

schedule-retry_counts :
    (token : Text) (due : ℕ) (st : LocalCheckpointState)
    → (schedule token due st).retry_counts ≡ st.retry_counts
unfolding schedule
schedule-retry_counts token due st = elim (Bool-cases (contains token st.enqueued)) [
  | inl there ↦ rw there refl
  | inr new ↦ rw new refl
]

handle_popped_turn :
    (env : Environment) (now : ℕ) (ref : WorkspaceStateRef) (flushed : Bool) (st st' : FlushState)
    → get_dead_letter_payload ref st.store.local_checkpoint_state ≡ none
    → is_ahead now (get_checkpoint_due_at ref st.store.local_checkpoint_state) ≡ false
    → run_checkpoint_cycle env now ref st ≡ ok (flushed, true, st')
    → handle_popped env now ref st ≡ ok st'
unfolding handle_popped after_cycle is_payload
handle_popped_turn env now ref flushed st st' alive turn cycle =
    rw (handle_popped, is_payload, alive) (rw turn (rw cycle refl))

-- Take a workspace whose turn it is, without dead letter, whose mirror in the store is dirty, and a
-- batch of it that has payloads, none of whose parents can be resolved; a session maker is set. The
-- worker's round then leaves the mirror in the store and the retry counts as they are, and the
-- workspace is enqueued, with a due time that lies ahead by the debounce time.
pub handle_popped_stuck :
    (env : Environment) (now : ℕ) (ref : WorkspaceStateRef) (mirror : WorkspaceMirror) (p : Node)
    (ps : List Node) (st : FlushState)
    → st.session_maker ≡ true
    → load_workspace_mirror ref st.store ≡ some mirror
    → (snapshot_dirty_batch_locked env.flush_batch mirror).dirty_payloads ≡ p ∷ ps
    → AllStuck [] (p ∷ ps)
    → is_filled (snapshot_dirty_batch_locked env.flush_batch mirror).dirty_ids ≡ true
    → mirror_has_dirty_state mirror ≡ true
    → get_dead_letter_payload ref st.store.local_checkpoint_state ≡ none
    → is_ahead now (get_checkpoint_due_at ref st.store.local_checkpoint_state) ≡ false
    → (st' : FlushState) × (handle_popped env now ref st ≡ ok st')
      × (load_workspace_mirror ref st'.store ≡ some mirror)
      × (st'.store.local_checkpoint_state.retry_counts
          ≡ st.store.local_checkpoint_state.retry_counts)
      × (get_checkpoint_due_at ref st'.store.local_checkpoint_state ≡ some (now + env.debounce))
      × (contains (queue_token ref) st'.store.local_checkpoint_state.enqueued ≡ true)
unfolding rescheduled enqueue_debounced failed load_workspace_mirror get_dead_letter_payload
    get_checkpoint_due_at clear_checkpoint_schedule set_error_payload
handle_popped_stuck env now ref mirror p ps st on held e h filled dirty alive turn =
    let cycle =
      run_checkpoint_cycle_stuck env now ref mirror st
        (flush_workspace_mirror_stuck env now ref mirror p ps st on held e h filled) held dirty in
    let before =
      (on_checkpoints (clear_checkpoint_schedule ref)
        (failed env ref mirror st)).store.local_checkpoint_state in
    let after = enqueued_after ref (now + env.debounce) before alive in
    (
      rescheduled env now ref mirror st,
      handle_popped_turn env now ref false st (rescheduled env now ref mirror st) alive turn cycle,
      held,
      rw after (schedule-retry_counts (queue_token ref) (now + env.debounce) before),
      rw after (schedule-due_at (queue_token ref) (now + env.debounce) before),
      rw after (schedule-contains (queue_token ref) (now + env.debounce) before),
    )
