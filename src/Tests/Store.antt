-- ===== src/Tests/Store.antt =====
-- The theorems of the store, the checkpoint and the repositories at concrete data.
use iruka_virtual_file_syste.Prelude.{
  ◌≡◌, refl, true, false, not, ◌&&◌, none, some, [], ◌∷◌, ◌++◌, ℤ, pos, contains, is_some, ◌==◌,
  list_eq, nat_eq, arith,
}
use iruka_virtual_file_syste.Text.{text}
use iruka_virtual_file_syste.Dict.{get}
use iruka_virtual_file_syste.Model.{file}
use iruka_virtual_file_syste.Store.{
  WorkspaceStateRef, LocalCheckpointState, queue_token, enqueue_workspace_checkpoint,
  clear_checkpoint_schedule,
}
use iruka_virtual_file_syste.Store.Queue.{
  IsScheduled, enqueue_workspace_checkpoint_lem, queued_twice,
}
use iruka_virtual_file_syste.Checkpoint.{record_checkpoint_failure}
use iruka_virtual_file_syste.Checkpoint.Failures.{record_checkpoint_failure_lem}
use iruka_virtual_file_syste.Repositories.{NodeRow, RepoState, create_node, get_node}
use iruka_virtual_file_syste.Repositories.Nodes.{IsCounted, create_node_lem}

abbrev ref : WorkspaceStateRef
ref = record { tenant_key = text "t"; workspace_id = pos 1; scope_key = text "s" }

abbrev idle : LocalCheckpointState
idle = record {
  queue = [];
  enqueued = [];
  dirty = [];
  due_at = [];
  errors = [];
  dead_letters = [];
  dead_letter_payloads = [];
  retry_counts = [];
}

idle-IsScheduled : IsScheduled idle
unfolding contains
idle-IsScheduled = record { distinct = tt; covered = λ t h. h }

enqueue_workspace_checkpoint_example :
    IsScheduled (enqueue_workspace_checkpoint ref 5 false idle)
    × ((not false && is_some (get (queue_token ref) idle.dead_letter_payloads)) ≡ false
        → (contains (queue_token ref) (enqueue_workspace_checkpoint ref 5 false idle).enqueued
            ≡ true)
          × (get (queue_token ref) (enqueue_workspace_checkpoint ref 5 false idle).due_at ≡ some 5)
          × (contains (queue_token ref) idle.enqueued ≡ true
              → (enqueue_workspace_checkpoint ref 5 false idle).queue ≡ idle.queue))
enqueue_workspace_checkpoint_example =
    enqueue_workspace_checkpoint_lem ref 5 false idle idle-IsScheduled

record_checkpoint_failure_example :
    (st' : LocalCheckpointState) × (record_checkpoint_failure 1 ref (λ n. []) idle ≡ (true, 1, st'))
    × (enqueue_workspace_checkpoint ref 9 false st' ≡ st')
unfolding get
record_checkpoint_failure_example = record_checkpoint_failure_lem 1 9 ref (λ n. []) idle refl

abbrev empty_repo : RepoState
empty_repo = record {
  next_session_id = 1;
  next_node_id = 1;
  workspaces = [];
  sessions = [];
  nodes = [];
}

empty_repo-IsCounted : IsCounted empty_repo
unfolding get
empty_repo-IsCounted = λ k row e. absurd (ground arith)

create_node_example :
    (row : NodeRow) × (st' : RepoState) × (create_node
        (text "t")
        (pos 1)
        none
        (text "a")
        file
        (text "x")
        1
        empty_repo
      ≡ (row, st'))
    × (get_node row.node.id (text "t") st' ≡ some row)
    × ((text "u" == text "t") ≡ false → get_node row.node.id (text "u") st' ≡ none)
    × ((k : ℤ) (old : NodeRow)
        → get_node k (text "u") empty_repo ≡ some old
        → get_node k (text "u") st' ≡ some old)
    × IsCounted st'
create_node_example =
    create_node_lem (text "t") (text "u") (text "a") (text "x") (pos 1) none file 1 empty_repo
      empty_repo-IsCounted

queued_twice_example :
    (enqueue_workspace_checkpoint ref 7 false
      (clear_checkpoint_schedule ref (enqueue_workspace_checkpoint ref 5 false idle))).queue
    ≡ ([] ++ queue_token ref ∷ []) ++ queue_token ref ∷ []
unfolding contains get
queued_twice_example = queued_twice ref 5 7 idle refl refl
