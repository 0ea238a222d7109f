-- ===== src/Store/Queue.antt =====
-- The checkpoint queue of the store holds no workspace twice.
use iruka_virtual_file_syste.Prelude.{
  ℕ, ◌≡◌, refl, inl, inr, Bool, true, false, not, ◌&&◌, some, [], ◌∷◌, contains, contains-append,
  is_some, ap, none, contains-keep, ◌++◌, list_eq, nat_eq, arith, Bool-cases, beq_refl, Distinct,
  append-Distinct,
}
use iruka_virtual_file_syste.Text.{Text}
use iruka_virtual_file_syste.Dict.{get}
use iruka_virtual_file_syste.Dict.Laws.{get-put}
use iruka_virtual_file_syste.Store.{
  WorkspaceStateRef, LocalCheckpointState, queue_token, schedule, enqueue_workspace_checkpoint,
  clear_checkpoint_schedule, discard_token,
}

-- No token is queued twice, and a queued token is enqueued.
pub record IsScheduled (st : LocalCheckpointState) : Type 0 where
  pub distinct : Distinct st.queue
  pub covered : (t : Text) → contains t st.queue ≡ true → contains t st.enqueued ≡ true

not_queued :
    (token : Text) (st : LocalCheckpointState)
    → IsScheduled st
    → contains token st.enqueued ≡ false
    → contains token st.queue ≡ false
not_queued token st h new = ground (arith, h.covered token)

schedule-IsScheduled :
    (token : Text) (due_at : ℕ) (st : LocalCheckpointState)
    → IsScheduled st
    → IsScheduled (schedule token due_at st)
unfolding schedule
schedule-IsScheduled token due_at st h = elim (Bool-cases (contains token st.enqueued)) [
  | inl there ↦ rw there (record { distinct = h.distinct; covered = h.covered })
  | inr new ↦ rw new (record {
    distinct = append-Distinct st.queue token h.distinct (not_queued token st h new);
    covered = λ t m.
        rw contains-append (ground (arith, h.covered t, contains-append t st.queue (token ∷ [])));
  })
]

pub schedule-contains :
    (token : Text) (due_at : ℕ) (st : LocalCheckpointState)
    → contains token (schedule token due_at st).enqueued ≡ true
unfolding schedule contains
schedule-contains token due_at st = elim (Bool-cases (contains token st.enqueued)) [
  | inl there ↦ rw there there
  | inr new ↦ rw new (rw contains-append (ground (arith, beq_refl token)))
]

schedule-queue :
    (token : Text) (due_at : ℕ) (st : LocalCheckpointState)
    → contains token st.enqueued ≡ true
    → (schedule token due_at st).queue ≡ st.queue
unfolding schedule
schedule-queue token due_at st there = rw there refl

pub schedule-due_at :
    (token : Text) (due_at : ℕ) (st : LocalCheckpointState)
    → get token (schedule token due_at st).due_at ≡ some due_at
unfolding schedule
schedule-due_at token due_at st = elim (Bool-cases (contains token st.enqueued)) [
  | inl there ↦ rw there (rw get-put (ground (arith, beq_refl token)))
  | inr new ↦ rw new (rw get-put (ground (arith, beq_refl token)))
]

-- In a store whose queue holds no token twice and only enqueued ones, enqueueing a workspace keeps
-- this. If the call forces it or no dead letter holds the workspace back, the workspace is then
-- enqueued with the given time, and a workspace that was enqueued leaves the queue as it is.
pub enqueue_workspace_checkpoint_lem :
    (ref : WorkspaceStateRef) (due_at : ℕ) (force : Bool) (st : LocalCheckpointState)
    → IsScheduled st
    → IsScheduled (enqueue_workspace_checkpoint ref due_at force st)
      × ((not force && is_some (get (queue_token ref) st.dead_letter_payloads)) ≡ false
          → (contains (queue_token ref) (enqueue_workspace_checkpoint ref due_at force st).enqueued
              ≡ true)
            × (get (queue_token ref) (enqueue_workspace_checkpoint ref due_at force st).due_at
                ≡ some due_at)
            × (contains (queue_token ref) st.enqueued ≡ true
                → (enqueue_workspace_checkpoint ref due_at force st).queue ≡ st.queue))
unfolding enqueue_workspace_checkpoint
enqueue_workspace_checkpoint_lem ref due_at force st h =
    elim (Bool-cases (not force && is_some (get (queue_token ref) st.dead_letter_payloads))) [
      | inl held ↦ (rw held h, λ free. absurd (ground arith))
      | inr free ↦ (
        rw free (schedule-IsScheduled (queue_token ref) due_at st h),
        λ _. (
          rw free (schedule-contains (queue_token ref) due_at st),
          rw free (schedule-due_at (queue_token ref) due_at st),
          λ there. rw free (schedule-queue (queue_token ref) due_at st there),
        ),
      )
    ]

-- A workspace that is enqueued, whose schedule is cleared while its token waits in the queue, and
-- that is enqueued again has its token in the queue twice, unless a dead letter holds it back.
pub queued_twice :
    (ref : WorkspaceStateRef) (first second : ℕ) (st : LocalCheckpointState)
    → contains (queue_token ref) st.enqueued ≡ false
    → get (queue_token ref) st.dead_letter_payloads ≡ none
    → (enqueue_workspace_checkpoint ref second false
        (clear_checkpoint_schedule ref (enqueue_workspace_checkpoint ref first false st))).queue
      ≡ (st.queue ++ queue_token ref ∷ []) ++ queue_token ref ∷ []
unfolding enqueue_workspace_checkpoint schedule clear_checkpoint_schedule discard_token
queued_twice ref first second st new free =
    let held = ap is_some free in
    let gone : contains (queue_token ref)
          (discard_token (queue_token ref) (st.enqueued ++ queue_token ref ∷ []))
        ≡ false =
      rw (discard_token, contains-keep) (ground (arith, beq_refl (queue_token ref))) in
    rw (enqueue_workspace_checkpoint, schedule, clear_checkpoint_schedule, held, new, held, gone)
      refl
