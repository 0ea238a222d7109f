-- ===== src/Store.antt =====
-- The checkpoint state of `LocalMemoryStateStore` (iruka_vfs/workspace_state_store.py). Times are
-- natural numbers; a payload is the error that a checkpoint ended with.
pub mod Queue
use iruka_virtual_file_syste.Prelude.{
  ℕ, zero, suc, ◌+◌, Bool, true, false, not, ◌&&◌, Option, none, some, List, [], ◌∷◌, ◌++◌, ℤ, pos,
  keep, contains, is_some, get_or, length, ◌==◌, list_eq, nat_eq, if◌then◌else◌,
}
use iruka_virtual_file_syste.Text.{Text, text}
use iruka_virtual_file_syste.Text.Number.{show_int}
use iruka_virtual_file_syste.Dict.{Dict, get, put, remove}
use iruka_virtual_file_syste.Model.{Metadata}

pub record WorkspaceStateRef : Type 0 where
  pub tenant_key : Text
  pub workspace_id : ℤ
  pub scope_key : Text

pub record LocalCheckpointState : Type 0 where
  pub queue : List Text
  pub enqueued : List Text
  pub dirty : List Text
  pub due_at : Dict Text ℕ
  pub errors : Dict Text Metadata
  pub dead_letters : List Text
  pub dead_letter_payloads : Dict Text Metadata
  pub retry_counts : Dict Text ℕ

-- `_queue_token`
unfoldable pub queue_token : WorkspaceStateRef → Text
queue_token ref =
    ref.tenant_key ++ text "|" ++ show_int ref.workspace_id ++ text "|" ++ ref.scope_key

-- `set.add` and `set.discard`
unfoldable pub add_token : Text → List Text → List Text
add_token t ts = if contains t ts then ts else ts ++ t ∷ []

unfoldable pub discard_token : Text → List Text → List Text
discard_token t = keep (λ u. not (u == t))

-- What enqueueing does to a token that no dead letter holds back.
unfoldable pub schedule : Text → ℕ → LocalCheckpointState → LocalCheckpointState
schedule token due_at st =
    if contains token st.enqueued
    then record st { due_at = put token due_at st.due_at }
    else record st {
      due_at = put token due_at st.due_at;
      enqueued = st.enqueued ++ token ∷ [];
      queue = st.queue ++ token ∷ [];
    }

-- `enqueue_workspace_checkpoint`, with the time that the call gives or reads
unfoldable pub enqueue_workspace_checkpoint :
    WorkspaceStateRef → ℕ → Bool → LocalCheckpointState → LocalCheckpointState
enqueue_workspace_checkpoint ref due_at force st =
    if not force && is_some (get (queue_token ref) st.dead_letter_payloads)
    then st
    else schedule (queue_token ref) due_at st

-- `pop_checkpoint` where it finds a token, `none` where it times out; the caller parses the token
unfoldable pub pop_checkpoint : LocalCheckpointState → Option (Text × LocalCheckpointState)
pop_checkpoint st = elim st.queue [
  | [] ↦ none
  | token ∷ rest ↦ some (token, record st { queue = rest })
]

unfoldable pub requeue_checkpoint : WorkspaceStateRef → LocalCheckpointState → LocalCheckpointState
requeue_checkpoint ref st = record st { queue = st.queue ++ queue_token ref ∷ [] }

unfoldable pub clear_checkpoint_schedule :
    WorkspaceStateRef → LocalCheckpointState → LocalCheckpointState
clear_checkpoint_schedule ref st = record st {
  enqueued = discard_token (queue_token ref) st.enqueued;
  due_at = remove (queue_token ref) st.due_at;
}

unfoldable pub get_checkpoint_due_at : WorkspaceStateRef → LocalCheckpointState → Option ℕ
get_checkpoint_due_at ref st = get (queue_token ref) st.due_at

pub record CheckpointMetrics : Type 0 where
  pub checkpoint_queue_depth : ℕ
  pub checkpoint_enqueued : ℕ
  pub checkpoint_dirty_workspaces : ℕ
  pub checkpoint_dead_letter : ℕ

unfoldable pub get_checkpoint_metrics : LocalCheckpointState → CheckpointMetrics
get_checkpoint_metrics st = record {
  checkpoint_queue_depth = length st.queue;
  checkpoint_enqueued = length st.enqueued;
  checkpoint_dirty_workspaces = length st.dirty;
  checkpoint_dead_letter = length st.dead_letters;
}

unfoldable pub get_dirty_workspace_count : LocalCheckpointState → ℕ
get_dirty_workspace_count st = length st.dirty

unfoldable pub mark_workspace_dirty :
    WorkspaceStateRef → LocalCheckpointState → LocalCheckpointState
mark_workspace_dirty ref st = record st { dirty = add_token (queue_token ref) st.dirty }

unfoldable pub clear_workspace_dirty :
    WorkspaceStateRef → LocalCheckpointState → LocalCheckpointState
clear_workspace_dirty ref st = record st { dirty = discard_token (queue_token ref) st.dirty }

unfoldable pub get_error_payload : WorkspaceStateRef → LocalCheckpointState → Option Metadata
get_error_payload ref st = get (queue_token ref) st.errors

unfoldable pub set_error_payload :
    WorkspaceStateRef → Metadata → LocalCheckpointState → LocalCheckpointState
set_error_payload ref payload st = record st { errors = put (queue_token ref) payload st.errors }

unfoldable pub clear_error_payload : WorkspaceStateRef → LocalCheckpointState → LocalCheckpointState
clear_error_payload ref st = record st { errors = remove (queue_token ref) st.errors }

unfoldable pub get_dead_letter_payload : WorkspaceStateRef → LocalCheckpointState → Option Metadata
get_dead_letter_payload ref st = get (queue_token ref) st.dead_letter_payloads

unfoldable pub set_dead_letter_payload :
    WorkspaceStateRef → Metadata → LocalCheckpointState → LocalCheckpointState
set_dead_letter_payload ref payload st = record st {
  dead_letter_payloads = put (queue_token ref) payload st.dead_letter_payloads;
}

unfoldable pub clear_dead_letter_payload :
    WorkspaceStateRef → LocalCheckpointState → LocalCheckpointState
clear_dead_letter_payload ref st = record st {
  dead_letter_payloads = remove (queue_token ref) st.dead_letter_payloads;
  dead_letters = discard_token (queue_token ref) st.dead_letters;
}

unfoldable pub add_dead_letter : WorkspaceStateRef → LocalCheckpointState → LocalCheckpointState
add_dead_letter ref st = record st { dead_letters = add_token (queue_token ref) st.dead_letters }

unfoldable pub remove_dead_letter : WorkspaceStateRef → LocalCheckpointState → LocalCheckpointState
remove_dead_letter ref st = record st {
  dead_letters = discard_token (queue_token ref) st.dead_letters;
}

unfoldable pub get_dead_letter_count : LocalCheckpointState → ℕ
get_dead_letter_count st = length st.dead_letters

unfoldable pub increment_retry_count :
    WorkspaceStateRef → LocalCheckpointState → ℕ × LocalCheckpointState
increment_retry_count ref st =
    let next_value = get_or (get (queue_token ref) st.retry_counts) 0 + 1 in
    (next_value, record st { retry_counts = put (queue_token ref) next_value st.retry_counts })

unfoldable pub clear_retry_count : WorkspaceStateRef → LocalCheckpointState → LocalCheckpointState
clear_retry_count ref st = record st { retry_counts = remove (queue_token ref) st.retry_counts }
