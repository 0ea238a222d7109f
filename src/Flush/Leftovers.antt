-- ===== src/Flush/Leftovers.antt =====
-- The temporary id of a node that a flush stores stays among the dirty ids.
use iruka_virtual_file_syste.Prelude.{
  ℕ, ◌≡◌, ◌≢◌, refl, sym, ap, ◌∙◌, inl, inr, Bool, true, false, ◌&&◌, List, [], ◌∷◌, map, ℤ, pos,
  negsuc, contains, contains-keep, int_eq, Option-cases, arith, if◌then◌else◌,
}
use iruka_virtual_file_syste.Dict.{Dict, get, values, keys}
use iruka_virtual_file_syste.Result.{Result, ok, raise, ◌>>=◌}
use iruka_virtual_file_syste.Result.Chains.{middle}
use iruka_virtual_file_syste.Model.{Node, WorkspaceMirror}
use iruka_virtual_file_syste.Mirror.Mutate.{discard_id}
use iruka_virtual_file_syste.Mirror.Indexing.{
  rebuild_workspace_mirror_indexes_locked, sort_all, group_children, index_paths,
}
use iruka_virtual_file_syste.Checkpoint.{
  Snapshot, remap_payload_node_ids, remap_of, remapped, move_nodes, discard_flushed,
  mirror_has_dirty_state, is_filled, node_matches_payload,
}
use iruka_virtual_file_syste.Flush.{mark_flushed, move_flushed, confirm_flushed_snapshot_locked}

abbrev dirty_of : Result WorkspaceMirror → List ℤ
dirty_of (ok m) = m.dirty_structure_node_ids
dirty_of (raise e) = []

rebuild-dirty :
    (m m' : WorkspaceMirror)
    → rebuild_workspace_mirror_indexes_locked m ≡ ok m'
    → m'.dirty_structure_node_ids ≡ m.dirty_structure_node_ids
unfolding rebuild_workspace_mirror_indexes_locked
rebuild-dirty m m' e =
    let grouped = group_children (values m.nodes) [] in
    let (children, indexed, _) =
      middle (sort_all m.nodes (keys grouped) grouped)
        (λ children. index_paths m.nodes (values m.nodes) [] >>= λ index.
          ok (record m { path_to_id = index; children_by_parent = children }))
        m' e in
    let (index, rebuilt, _) =
      middle (index_paths m.nodes (values m.nodes) [])
        (λ index. ok (record m { path_to_id = index; children_by_parent = children })) m' indexed in
    sym (ap dirty_of rebuilt)

move_nodes-dirty :
    (remap : Dict ℤ ℤ) (pairs : List (ℤ × ℤ)) (m : WorkspaceMirror)
    → (move_nodes remap pairs m).dirty_structure_node_ids ≡ m.dirty_structure_node_ids
unfolding move_nodes
move_nodes-dirty remap [] m = refl
move_nodes-dirty remap ((temp, real) ∷ pairs) m = elim (Option-cases (get temp m.nodes)) [
  | inl gone ↦ rw (move_nodes, gone) (move_nodes-dirty remap pairs m)
  | inr (node, found) ↦ rw (move_nodes, found) (move_nodes-dirty remap pairs _)
]

-- Every payload has an id that is not negative.
abbrev pub AllStored : List Node → Type 0
AllStored [] = Unit
AllStored (p ∷ ps) = ((k : ℕ) × (p.id ≡ pos k)) × AllStored ps

discard_id-other :
    (i j : ℤ) (ids : List ℤ) → i ≢ j → contains j ids ≡ true → contains j (discard_id i ids) ≡ true
unfolding discard_id
discard_id-other i j ids other h =
    rw contains-keep (ground (arith, h, other, int_eq.beq_iff j i, int_eq.beq_iff i j))

discard_flushed-dirty :
    (n : ℕ) (content structure : List ℤ) (ps : List Node) (m : WorkspaceMirror)
    → AllStored ps
    → contains (negsuc n) m.dirty_structure_node_ids ≡ true
    → contains (negsuc n) (discard_flushed content structure ps m).dirty_structure_node_ids ≡ true
unfolding discard_flushed
discard_flushed-dirty n content structure [] m stored h = h
discard_flushed-dirty n content structure (p ∷ ps) m stored h =
    discard_flushed-dirty n content structure ps _ stored.1
      (kept (contains p.id structure && node_matches_payload (get p.id m.nodes) p))
  where
    apart : p.id ≢ negsuc n
    apart e = cc (sym stored.0.1 ∙ e)

    kept :
        (b : Bool)
        → contains
            (negsuc n)
            (if b then discard_id p.id m.dirty_structure_node_ids else m.dirty_structure_node_ids)
          ≡ true
    kept true = discard_id-other p.id (negsuc n) m.dirty_structure_node_ids apart h
    kept false = h

filled_of_contains : (i : ℤ) (ids : List ℤ) → contains i ids ≡ true → is_filled ids ≡ true
unfolding contains is_filled
filled_of_contains i [] h = cc
filled_of_contains i (j ∷ ids) h = refl

-- Where every payload of a batch gets an id that is not negative, and the confirmation of the batch
-- succeeds, a temporary id among the dirty structure ids of the mirror stays there, and the mirror
-- is dirty.
pub confirm_flushed_snapshot_locked-dirty :
    (n : ℕ) (snapshot : Snapshot) (remapped_ids : List (ℤ × ℤ))
    (current confirmed : WorkspaceMirror)
    → AllStored (remap_payload_node_ids snapshot.dirty_payloads remapped_ids)
    → contains (negsuc n) current.dirty_structure_node_ids ≡ true
    → confirm_flushed_snapshot_locked snapshot remapped_ids current ≡ ok confirmed
    → (contains (negsuc n) confirmed.dirty_structure_node_ids ≡ true)
      × (mirror_has_dirty_state confirmed ≡ true)
unfolding confirm_flushed_snapshot_locked mark_flushed move_flushed mirror_has_dirty_state
confirm_flushed_snapshot_locked-dirty n snapshot remapped_ids current confirmed stored h e =
    let remap = remap_of [] remapped_ids in
    let (indexed, marked, rebuilt) =
      middle (rebuild_workspace_mirror_indexes_locked (move_flushed remapped_ids current))
        (λ indexed. ok (mark_flushed snapshot remapped_ids indexed)) confirmed e in
    let kept : indexed.dirty_structure_node_ids ≡ current.dirty_structure_node_ids =
      rebuild-dirty (move_flushed remapped_ids current) indexed rebuilt
      ∙ move_nodes-dirty remap remapped_ids current in
    let left =
      discard_flushed-dirty n (map (remapped remap) snapshot.dirty_content_ids)
        (map (remapped remap) snapshot.dirty_structure_ids)
        (remap_payload_node_ids snapshot.dirty_payloads remapped_ids) indexed stored
        (ap (contains (negsuc n)) kept ∙ h) in
    let there : contains (negsuc n) confirmed.dirty_structure_node_ids ≡ true =
      ap (contains (negsuc n)) (sym (ap dirty_of marked)) ∙ left in
    (there, ground (arith, filled_of_contains (negsuc n) confirmed.dirty_structure_node_ids there))
