-- ===== src/Runtime/Marking.antt =====
-- What storing a mirror does to the checkpoint state: `set_workspace_mirror` of the local store in
-- `workspace_state_store.py`.
use iruka_virtual_file_syste.Prelude.{
  ℕ, Bool, true, false, not, ◌&&◌, none, some, List, contains, contains-append, is_some, list_eq,
  nat_eq, ◌≡◌, refl, ap, ◌∙◌, inl, inr, arith, Bool-cases, beq_refl,
}
use iruka_virtual_file_syste.Text.{Text}
use iruka_virtual_file_syste.Dict.{get}
use iruka_virtual_file_syste.Model.{WorkspaceMirror}
use iruka_virtual_file_syste.Checkpoint.{mirror_has_dirty_state}
use iruka_virtual_file_syste.Store.{
  WorkspaceStateRef, LocalCheckpointState, queue_token, enqueue_workspace_checkpoint,
  mark_workspace_dirty, schedule, add_token,
}
use iruka_virtual_file_syste.Store.Queue.{IsScheduled, enqueue_workspace_checkpoint_lem}
use iruka_virtual_file_syste.Runtime.World.{World, set_workspace_mirror, ref_of}

enqueue-dirty :
    (ref : WorkspaceStateRef) (due_at : ℕ) (force : Bool) (st : LocalCheckpointState)
    → (enqueue_workspace_checkpoint ref due_at force st).dirty ≡ st.dirty
unfolding enqueue_workspace_checkpoint schedule
enqueue-dirty ref due_at force st =
    elim (Bool-cases (not force && is_some (get (queue_token ref) st.dead_letter_payloads))) [
      | inl held ↦ rw held refl
      | inr free ↦ elim (Bool-cases (contains (queue_token ref) st.enqueued)) [
        | inl there ↦ rw (free, schedule, there) refl
        | inr new ↦ rw (free, schedule, new) refl
      ]
    ]

contains-add_token : (t : Text) (ts : List Text) → contains t (add_token t ts) ≡ true
unfolding add_token contains
contains-add_token t ts = elim (Bool-cases (contains t ts)) [
  | inl there ↦ rw (add_token, there) there
  | inr new ↦ rw (add_token, new) (rw contains-append (ground (arith, beq_refl t)))
]

mark_workspace_dirty-IsScheduled :
    (ref : WorkspaceStateRef) (st : LocalCheckpointState)
    → IsScheduled st
    → IsScheduled (mark_workspace_dirty ref st)
unfolding mark_workspace_dirty
mark_workspace_dirty-IsScheduled ref st h = record { distinct = h.distinct; covered = h.covered }

-- A mirror with unsaved changes whose workspace no dead letter holds back is, once it is stored,
-- among the dirty workspaces and enqueued for a checkpoint at the given time, and the queue holds
-- no token twice and only enqueued ones if it did before.
pub set_workspace_mirror_lem :
    (m : WorkspaceMirror) (w : World)
    → IsScheduled w.checkpoints
    → mirror_has_dirty_state m ≡ true
    → get (queue_token (ref_of m)) w.checkpoints.dead_letter_payloads ≡ none
    → IsScheduled (set_workspace_mirror m w).checkpoints
      × (contains (queue_token (ref_of m)) (set_workspace_mirror m w).checkpoints.dirty ≡ true)
      × (contains (queue_token (ref_of m)) (set_workspace_mirror m w).checkpoints.enqueued ≡ true)
      × (get (queue_token (ref_of m)) (set_workspace_mirror m w).checkpoints.due_at ≡ some w.clock)
unfolding set_workspace_mirror mark_workspace_dirty
set_workspace_mirror_lem m w h changed free =
    let ref = ref_of m in
    let st = mark_workspace_dirty ref w.checkpoints in
    let kept =
      enqueue_workspace_checkpoint_lem ref w.clock false st
        (mark_workspace_dirty-IsScheduled ref w.checkpoints h) in
    let after = kept.1 (ap is_some free) in
    (
      rw (set_workspace_mirror, changed) kept.0,
      rw (set_workspace_mirror, changed)
          (ap (contains (queue_token ref)) (enqueue-dirty ref w.clock false st)
            ∙ contains-add_token (queue_token ref) w.checkpoints.dirty),
      rw (set_workspace_mirror, changed) after.0,
      rw (set_workspace_mirror, changed) after.1,
    )
