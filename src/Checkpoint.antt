-- ===== src/Checkpoint.antt =====
-- The batch that a checkpoint flushes and its confirmation (iruka_vfs/mirror/checkpoint.py), and the
-- record of failures.
pub mod Failures
use iruka_virtual_file_syste.Prelude.{
  ℕ, ◌+◌, Bool, true, false, not, ◌&&◌, ◌||◌, Option, none, some, List, [], ◌∷◌, ◌++◌, map, ℤ, pos,
  int_leb, int_eq, nat_eq, list_eq, option_eq, keep, take, contains, get_or, leb, ◌==◌,
  if◌then◌else◌, is_some,
}
use iruka_virtual_file_syste.Text.{Text}
use iruka_virtual_file_syste.Dict.{Dict, get, put, remove, values}
use iruka_virtual_file_syste.Result.{Result, ok, raise, ◌>>=◌}
use iruka_virtual_file_syste.Sorting.{sort_by}
use iruka_virtual_file_syste.Model.{
  NodeType, dir, file, is_dir, Node, WorkspaceMirror, Metadata, version_or_one,
}
use iruka_virtual_file_syste.Mirror.Indexing.{rebuild_workspace_mirror_indexes_locked}
use iruka_virtual_file_syste.Mirror.Mutate.{add_id, discard_id}
use iruka_virtual_file_syste.Store.{
  WorkspaceStateRef, LocalCheckpointState, clear_retry_count, clear_dead_letter_payload,
  remove_dead_letter, increment_retry_count, add_dead_letter, set_dead_letter_payload,
}

unfoldable pub is_filled : List ℤ → Bool
is_filled [] = false
is_filled (i ∷ is) = true

-- `mirror_has_dirty_state`
unfoldable pub mirror_has_dirty_state : WorkspaceMirror → Bool
unfolding is_filled
mirror_has_dirty_state m =
    is_filled m.dirty_content_node_ids
    || is_filled m.dirty_structure_node_ids
    || m.dirty_session
    || m.dirty_workspace_metadata

-- `_clear_checkpoint_failure_state`
unfoldable pub clear_checkpoint_failure_state :
    WorkspaceStateRef → LocalCheckpointState → LocalCheckpointState
clear_checkpoint_failure_state ref st =
    remove_dead_letter ref (clear_dead_letter_payload ref (clear_retry_count ref st))

-- `_record_checkpoint_failure`, with `VFS_CHECKPOINT_MAX_FAILURES` and the payload of the dead letter
unfoldable pub record_checkpoint_failure :
    ℕ → WorkspaceStateRef → (ℕ → Metadata) → LocalCheckpointState → Bool × ℕ × LocalCheckpointState
record_checkpoint_failure max_failures ref payload st =
    let (failure_count, counted) = increment_retry_count ref st in
    if leb max_failures failure_count && leb 1 failure_count
    then (
      true,
      failure_count,
      set_dead_letter_payload ref (payload failure_count) (add_dead_letter ref counted),
    )
    else (false, failure_count, counted)

unfoldable pub same_type : NodeType → NodeType → Bool
same_type dir t = is_dir t
same_type file t = not (is_dir t)

-- `_node_matches_payload`; a payload has the fields of a node
unfoldable pub node_matches_payload : Option Node → Node → Bool
unfolding same_type
node_matches_payload none payload = false
node_matches_payload (some node) payload =
    node.parent_id == payload.parent_id
    && node.name == payload.name
    && same_type node.node_type payload.node_type
    && node.content_text == payload.content_text
    && version_or_one node.version_no == version_or_one payload.version_no

pub record Snapshot : Type 0 where
  pub snapshot_revision : ℕ
  pub dirty_content_ids : List ℤ
  pub dirty_structure_ids : List ℤ
  pub dirty_ids : List ℤ
  pub dirty_payloads : List Node
  pub session_dirty : Bool
  pub metadata_dirty : Bool
  pub cwd_node_id : ℤ
  pub workspace_metadata : Metadata

-- `list(dict.fromkeys(ids))`, after the ids so far
unfoldable pub dedupe : List ℤ → List ℤ → List ℤ
unfolding add_id
dedupe seen [] = seen
dedupe seen (i ∷ is) = dedupe (add_id i seen) is

unfoldable pub payloads_of : Dict ℤ Node → List ℤ → List Node
payloads_of nodes [] = []
payloads_of nodes (i ∷ is) = elim (get i nodes) [
  | none ↦ payloads_of nodes is
  | some node ↦ record node { version_no = version_or_one node.version_no } ∷ payloads_of nodes is
]

-- `_snapshot_dirty_batch_locked`, with `MEMORY_CACHE_FLUSH_BATCH`
unfoldable pub snapshot_dirty_batch_locked : ℕ → WorkspaceMirror → Snapshot
snapshot_dirty_batch_locked batch m =
    let content_ids = take batch (sort_by int_leb m.dirty_content_node_ids) in
    let structure_ids = take batch (sort_by int_leb m.dirty_structure_node_ids) in
    let dirty_ids = take batch (dedupe [] (structure_ids ++ content_ids)) in
    record {
      snapshot_revision = m.revision;
      dirty_content_ids = content_ids;
      dirty_structure_ids = structure_ids;
      dirty_ids = dirty_ids;
      dirty_payloads = payloads_of m.nodes dirty_ids;
      session_dirty = m.dirty_session;
      metadata_dirty = m.dirty_workspace_metadata;
      cwd_node_id = m.cwd_node_id;
      workspace_metadata = m.workspace_metadata;
    }

-- `{temp_id: real_id for temp_id, real_id in remapped_ids}`
unfoldable pub remap_of : Dict ℤ ℤ → List (ℤ × ℤ) → Dict ℤ ℤ
remap_of remap [] = remap
remap_of remap ((temp, real) ∷ pairs) = remap_of (put temp real remap) pairs

-- `remap.get(i, i)`
unfoldable pub remapped : Dict ℤ ℤ → ℤ → ℤ
remapped remap i = get_or (get i remap) i

unfoldable pub remap_parent : Dict ℤ ℤ → Node → Node
unfolding remapped
remap_parent remap node = elim node.parent_id [
  | none ↦ node
  | some p ↦ record node { parent_id = some (remapped remap p) }
]

-- `_remap_payload_node_ids`
unfoldable pub remap_payload_node_ids : List Node → List (ℤ × ℤ) → List Node
unfolding remap_parent remapped
remap_payload_node_ids payloads [] = payloads
remap_payload_node_ids payloads (p ∷ pairs) =
    let remap = remap_of [] (p ∷ pairs) in
    map (λ (item : Node). record (remap_parent remap item) { id = remapped remap item.id }) payloads

-- The loop that moves the nodes from their temporary ids to the real ones.
unfoldable pub move_nodes : Dict ℤ ℤ → List (ℤ × ℤ) → WorkspaceMirror → WorkspaceMirror
unfolding remap_parent
move_nodes remap [] m = m
move_nodes remap ((temp, real) ∷ pairs) m = elim (get temp m.nodes) [
  | none ↦ move_nodes remap pairs m
  | some node ↦ move_nodes remap pairs (record m {
    nodes = put real (remap_parent remap (record node { id = real })) (remove temp m.nodes);
    cwd_node_id = if m.cwd_node_id == temp then real else m.cwd_node_id;
  })
]

-- The loop that takes off the dirty marks of what is stored.
unfoldable pub discard_flushed : List ℤ → List ℤ → List Node → WorkspaceMirror → WorkspaceMirror
discard_flushed content_ids structure_ids [] m = m
discard_flushed content_ids structure_ids (payload ∷ payloads) m =
    let matches = node_matches_payload (get payload.id m.nodes) payload in
    discard_flushed content_ids structure_ids payloads (record m {
      dirty_content_node_ids =
          if contains payload.id content_ids && matches
          then discard_id payload.id m.dirty_content_node_ids
          else m.dirty_content_node_ids;
      dirty_structure_node_ids =
          if contains payload.id structure_ids && matches
          then discard_id payload.id m.dirty_structure_node_ids
          else m.dirty_structure_node_ids;
    })

-- The loop that gives every node its parent's real id.
unfoldable pub remap_nodes : Dict ℤ ℤ → Dict ℤ Node → Dict ℤ Node
unfolding remap_parent
remap_nodes remap [] = []
remap_nodes remap ((k, node) ∷ nodes) = (k, remap_parent remap node) ∷ remap_nodes remap nodes
