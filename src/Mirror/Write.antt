-- ===== src/Mirror/Write.antt =====
-- A write to a file of the mirror by `_mutate_write_file` of `runtime/filesystem.py`.
use iruka_virtual_file_syste.Prelude.{
  ◌+◌, ◌≡◌, ◌∙◌, refl, sym, ap, inl, inr, true, some, List, [], ◌∷◌, ℤ, contains, int_eq, nat_eq,
  ◌==◌, arith, Bool-cases, beq_refl, contains-append, get_or,
}
use iruka_virtual_file_syste.Text.{Text}
use iruka_virtual_file_syste.Dict.{Dict, get, put}
use iruka_virtual_file_syste.Dict.Laws.{get-put}
use iruka_virtual_file_syste.Result.{ok}
use iruka_virtual_file_syste.Model.{Node, WorkspaceMirror, version_or_one}
use iruka_virtual_file_syste.Mirror.Mutate.{mutate_write_file, adopt_node, add_id}
use iruka_virtual_file_syste.Mirror.WellFormed.{IsTree, IsWellFormed, id_of_get, put-IdsMatch}
use iruka_virtual_file_syste.Mirror.Create.{get-put_same, get-put-cases, is_some-get-put}

pub contains-add_id : (i : ℤ) (ids : List ℤ) → contains i (add_id i ids) ≡ true
unfolding add_id contains
contains-add_id i ids = elim (Bool-cases (contains i ids)) [
  | inl there ↦ ground (arith, there)
  | inr new ↦ ground (arith, new, contains-append i ids (i ∷ []), beq_refl i)
]

-- A node is replaced by one with the same parent and type.
module _ (old n : Node) (nodes : Dict ℤ Node) (found : get n.id nodes ≡ some old)
    (parent : n.parent_id ≡ old.parent_id) (kind : n.node_type ≡ old.node_type) where
  -- Each node of the new table has a counterpart in the old one.
  counterpart :
      (k : ℤ) (w : Node)
      → get k (put n.id n nodes) ≡ some w
      → (v : Node) × (get k nodes ≡ some v) × (w.parent_id ≡ v.parent_id)
  counterpart k w e = elim (get-put-cases n w n.id k nodes e) [
    | inl (at, is) ↦
        (old, ap (λ i. get i nodes) (sym at) ∙ found, sym (ap (λ x. x.parent_id) is) ∙ parent)
    | inr (other, there) ↦ (w, there, refl)
  ]

  still_there :
      (k : ℤ) (v : Node)
      → get k nodes ≡ some v
      → (w : Node) × (get k (put n.id n nodes) ≡ some w) × (w.node_type ≡ v.node_type)
  still_there k v e = elim (Bool-cases (n.id == k)) [
    | inl same ↦
        let at = (int_eq.beq_iff n.id k).0 same in
        let is : old ≡ v = ap (λ o. get_or o v) (sym found ∙ ap (λ i. get i nodes) at ∙ e) in
        (n, rw get-put (ground (arith, same)), kind ∙ ap (λ x. x.node_type) is)
    | inr other ↦ (v, rw get-put (ground (arith, other)), refl)
  ]

  replace-IsTree : IsTree nodes → IsTree (put n.id n nodes)
  replace-IsTree t = record {
    ids = put-IdsMatch n nodes t.ids;
    parents = λ k w q e up.
        let (v, there, same) = counterpart k w e in
        let (p, g, d) = t.parents k v q there (sym same ∙ up) in
        let (p', g', kept) = still_there q p g in (p', g', kept ∙ d);
    rank = t.rank;
    falls = λ k w q e up.
        let (v, there, same) = counterpart k w e in t.falls k v q there (sym same ∙ up);
  }

-- A write to a node that a well-formed mirror has returns the node's next version; the node then
-- holds the new content under that version, is marked as dirty, the revision grows by one, and the
-- mirror stays well formed.
pub mutate_write_file_lem :
    (node old : Node) (content : Text) (m : WorkspaceMirror)
    → IsWellFormed m
    → get node.id m.nodes ≡ some old
    → (m' : WorkspaceMirror) × (mutate_write_file node content m
        ≡ ok (version_or_one old.version_no + 1, true, m'))
      × (get node.id m'.nodes
          ≡ some (record old {
            content_text = content;
            version_no = version_or_one old.version_no + 1;
          }))
      × (contains node.id m'.dirty_content_node_ids ≡ true)
      × (m'.revision ≡ m.revision + 1)
      × IsWellFormed m'
unfolding mutate_write_file
mutate_write_file_lem node old content m wf found =
    let written : Node = record old {
      content_text = content;
      version_no = version_or_one old.version_no + 1;
    } in
    let id : old.id ≡ node.id = id_of_get node.id m.nodes wf.tree.ids found in
    let found' = ap (λ i. get i m.nodes) id ∙ found in
    (
      record m {
        nodes = put old.id written m.nodes;
        dirty_content_node_ids = add_id old.id m.dirty_content_node_ids;
        revision = m.revision + 1;
      },
      rw (found, adopt_node) refl,
      ap (λ i. get i (put old.id written m.nodes)) (sym id) ∙ get-put_same written old.id m.nodes,
      ap (λ i. contains i (add_id old.id m.dirty_content_node_ids)) (sym id)
          ∙ contains-add_id old.id m.dirty_content_node_ids,
      refl,
      record {
        tree = replace-IsTree old written m.nodes found' refl refl wf.tree;
        fresh = λ k w e. elim (get-put-cases written w old.id k m.nodes e) [
          | inl (at, is) ↦ wf.fresh k old (ap (λ i. get i m.nodes) (sym at) ∙ found')
          | inr (other, there) ↦ wf.fresh k w there
        ];
        listed = λ p ids e i h. is_some-get-put written old.id i m.nodes (wf.listed p ids e i h);
        indexed = λ path i e. is_some-get-put written old.id i m.nodes (wf.indexed path i e);
      },
    )
