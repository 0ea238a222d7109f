-- ===== src/Tests/Flush.antt =====
-- The theorems of the flush at a mirror with a new directory and a new file in it.
use iruka_virtual_file_syste.Prelude.{
  ℕ, ◌+◌, ◌<◌, length, ◌≡◌, ◌⊎◌, inl, inr, refl, true, false, Option, none, some, List, [], ◌∷◌, ℤ,
  pos, negsuc, contains, int_eq, nat_eq, list_eq, list_beq, option_beq, arith,
}
use iruka_virtual_file_syste.Text.{Text, text}
use iruka_virtual_file_syste.Text.Strip.{strip}
use iruka_virtual_file_syste.Text.Number.{show_int}
use iruka_virtual_file_syste.Sorting.{sort_by}
use iruka_virtual_file_syste.Context.{workspace_base_key, effective_workspace_scope}
use iruka_virtual_file_syste.Dict.{get, put, keys, values, remove}
use iruka_virtual_file_syste.Result.{ok, raise, value_error}
use iruka_virtual_file_syste.Model.{Node, dir, WorkspaceMirror}
use iruka_virtual_file_syste.Mirror.Indexing.{
  rebuild_workspace_mirror_indexes_locked, append_child, ensure_children_sorted_locked,
  mirror_node_path_locked,
}
use iruka_virtual_file_syste.Store.{
  WorkspaceStateRef, queue_token, get_dead_letter_payload, get_checkpoint_due_at,
}
use iruka_virtual_file_syste.Repositories.{RepoState, create_node}
use iruka_virtual_file_syste.Checkpoint.{
  Snapshot, snapshot_dirty_batch_locked, mirror_has_dirty_state, remap_payload_node_ids,
  payloads_of, dedupe, is_filled, remap_of, remapped, move_nodes, remap_nodes, discard_flushed,
  remap_parent,
}
use iruka_virtual_file_syste.LocalStore.{LocalState, load_workspace_mirror, base_key}
use iruka_virtual_file_syste.Flush.{
  FlushState, Environment, flush_rounds, flush_round, flush_payload, parent_for, write_payload,
  confirm_flushed_snapshot_locked, mark_flushed, move_flushed,
}
use iruka_virtual_file_syste.Flush.Ordered.{flush_rounds_ordered}
use iruka_virtual_file_syste.Flush.Kept.{Has, All, Known}
use iruka_virtual_file_syste.Flush.Ends.{Recorded, Stuck, flush_rounds_lem}
use iruka_virtual_file_syste.Flush.Worker.{handle_popped, is_ahead}
use iruka_virtual_file_syste.Flush.Leftovers.{confirm_flushed_snapshot_locked-dirty}
use iruka_virtual_file_syste.Flush.Stuck.{handle_popped_stuck}

abbrev node_of : ℤ → Option ℤ → Text → Node
node_of i parent name = record {
  id = i;
  parent_id = parent;
  name = name;
  node_type = dir;
  content_text = [];
  version_no = 1;
}

-- A new directory with a new directory in it.
abbrev fresh : WorkspaceMirror
fresh = record {
  tenant_key = text "t";
  scope_key = text "s";
  workspace_id = pos 7;
  root_id = pos 1;
  session_id = pos 1;
  cwd_node_id = pos 1;
  nodes =
      (pos 1, node_of (pos 1) none [])
      ∷ (negsuc 0, node_of (negsuc 0) (some (pos 1)) (text "d"))
      ∷ (negsuc 1, node_of (negsuc 1) (some (negsuc 0)) (text "e"))
      ∷ [];
  path_to_id = [];
  children_by_parent = [];
  workspace_metadata = [];
  revision = 3;
  checkpoint_revision = 1;
  dirty_content_node_ids = [];
  dirty_structure_node_ids = negsuc 0 ∷ negsuc 1 ∷ [];
  dirty_session = false;
  dirty_workspace_metadata = false;
  next_temp_id = negsuc 2;
}

abbrev no_rows : RepoState
no_rows = record {
  next_session_id = 1;
  next_node_id = 2;
  workspaces = [];
  sessions = [];
  nodes = [];
}

abbrev ref : WorkspaceStateRef
ref = record { tenant_key = text "t"; workspace_id = pos 7; scope_key = text "s" }

abbrev bare : LocalState
bare = record {
  settings = record {
    default_tenant_id = text "default";
    redis_key_namespace = text "vfs";
    default_scope = text "db";
  };
  context = record { mirror = none; tenant_key = none; scope_key = none };
  local_workspace_mirrors = [];
  local_workspace_indexes = [];
  local_checkpoint_state = record {
    queue = [];
    enqueued = [];
    dirty = [];
    due_at = [];
    errors = [];
    dead_letters = [];
    dead_letter_payloads = [];
    retry_counts = [];
  };
}

abbrev state : FlushState
state = record {
  store = record bare { local_workspace_mirrors = (base_key bare ref, fresh) ∷ [] };
  repo = no_rows;
  session_maker = true;
}

-- Batches of one payload.
abbrev env : Environment
env = record {
  flush_batch = 1;
  max_failures = 5;
  debounce = 2;
  retry_delay = λ n. n;
  rollback = λ before after. before;
  flush_error = λ snapshot e. [];
  worker_error = λ e. [];
  returned_false = [];
  dead_letter = λ r reason payload n. [];
}

abbrev inner : Node
inner = node_of (negsuc 1) (some (negsuc 0)) (text "e")

abbrev batch : List Node
batch = inner ∷ node_of (negsuc 0) (some (pos 1)) (text "d") ∷ []

flush_rounds_example :
    (ids' : List (ℤ × ℤ)) × (repo' : RepoState) × ((n : ℕ) → Known n [] → Known n ids')
    × Recorded (text "t") ids' repo'
    × (((flush_rounds (text "t") (pos 7) 2 batch [] no_rows ≡ (ok ids', repo'))
          × ((n : ℕ) → Has n batch → Known n ids'))
        ⊎ ((left : List Node) × (flush_rounds (text "t") (pos 7) 2 batch [] no_rows
              ≡ (raise (value_error (text "flush could not remap temporary parent ids")), repo'))
            × (0 < length left)
            × ((P : Node → Type 0) → All P batch → All P left)
            × Stuck ids' left
            × ((n : ℕ) → Has n batch → Has n left ⊎ Known n ids')))
unfolding get
flush_rounds_example =
    flush_rounds_lem (text "t") (pos 7) 2 batch [] no_rows (omega arith)
      (λ n v e. absurd (ground arith))

-- The inner directory comes first and waits for its parent.
flush_rounds_runs :
    (flush_rounds
      (text "t")
      (pos 7)
      2
      (inner ∷ node_of (negsuc 0) (some (pos 1)) (text "d") ∷ [])
      []
      no_rows).0
    ≡ ok ((negsuc 0, pos 2) ∷ (negsuc 1, pos 3) ∷ [])
unfolding flush_rounds flush_round flush_payload parent_for write_payload get create_node
flush_rounds_runs = refl

flush_rounds_ordered_example :
    (ids' : List (ℤ × ℤ)) × ((flush_rounds
        (text "t")
        (pos 7)
        2
        (inner ∷ node_of (negsuc 0) (some (pos 1)) (text "d") ∷ [])
        []
        no_rows).0
      ≡ ok ids')
unfolding parent_for
flush_rounds_ordered_example =
    flush_rounds_ordered (text "t") (pos 7) 2
      (inner ∷ node_of (negsuc 0) (some (pos 1)) (text "d") ∷ []) [] no_rows (omega arith)
      (inr (0, 1, refl, refl, omega arith, inr (inl refl)), (inl (λ e. cc e), tt))

handle_popped_example :
    (st' : FlushState) × (handle_popped env 9 ref state ≡ ok st')
    × (load_workspace_mirror ref st'.store ≡ some fresh)
    × (st'.store.local_checkpoint_state.retry_counts
        ≡ state.store.local_checkpoint_state.retry_counts)
    × (get_checkpoint_due_at ref st'.store.local_checkpoint_state ≡ some (9 + env.debounce))
    × (contains (queue_token ref) st'.store.local_checkpoint_state.enqueued ≡ true)
unfolding load_workspace_mirror get list_beq workspace_base_key text effective_workspace_scope strip
    show_int snapshot_dirty_batch_locked payloads_of dedupe sort_by contains parent_for is_filled
    mirror_has_dirty_state get_dead_letter_payload get_checkpoint_due_at is_ahead
handle_popped_example =
    handle_popped_stuck env 9 ref fresh inner [] state refl refl refl (refl, tt) refl refl refl refl

-- The whole mirror in one batch, and the real ids of its new nodes.
abbrev whole : Snapshot
whole = snapshot_dirty_batch_locked 64 fresh

abbrev real_ids : List (ℤ × ℤ)
real_ids = (negsuc 0, pos 2) ∷ (negsuc 1, pos 3) ∷ []

abbrev confirmed : WorkspaceMirror
confirmed = elim (confirm_flushed_snapshot_locked whole real_ids fresh) [
  | ok m ↦ m
  | raise e ↦ fresh
]

confirm_flushed_snapshot_locked_example :
    (contains (negsuc 0) confirmed.dirty_structure_node_ids ≡ true)
    × (mirror_has_dirty_state confirmed ≡ true)
unfolding confirm_flushed_snapshot_locked mark_flushed move_flushed snapshot_dirty_batch_locked
    payloads_of dedupe sort_by remap_payload_node_ids contains get list_beq remap_of remapped
    move_nodes remap_nodes rebuild_workspace_mirror_indexes_locked discard_flushed remap_parent put
    keys values remove append_child option_beq ensure_children_sorted_locked mirror_node_path_locked
confirm_flushed_snapshot_locked_example =
    confirm_flushed_snapshot_locked-dirty 0 whole real_ids fresh confirmed
      ((3, refl), ((2, refl), tt)) refl refl
