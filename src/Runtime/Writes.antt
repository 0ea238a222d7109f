-- ===== src/Runtime/Writes.antt =====
-- What a write through `mutate_workspace_mirror` leaves behind.
use iruka_virtual_file_syste.Prelude.{
  ℕ, ◌+◌, Bool, true, some, int_eq, nat_eq, list_eq, ◌≡◌, refl, ap, sym, ◌∙◌, if◌then◌else◌,
}
use native.Mathlib.Numerals.{unary_clauses}
use iruka_virtual_file_syste.Text.{Text}
use iruka_virtual_file_syste.Dict.{get, put}
use iruka_virtual_file_syste.Result.{Result, ok, raise}
use iruka_virtual_file_syste.Model.{Node, WorkspaceMirror, version_or_one}
use iruka_virtual_file_syste.Mirror.Mutate.{mutate_write_file, adopt_node, add_id}
use iruka_virtual_file_syste.Mirror.Create.{get-put_same}
use iruka_virtual_file_syste.Runtime.World.{
  World, mutate_workspace_mirror, set_workspace_mirror, mirror_node, get_node_content,
  get_node_version,
}
use iruka_virtual_file_syste.Runtime.Edits.{write_file}

version_next : (k : ℕ) → version_or_one (k + 1) ≡ k + 1
version_next k = simp unary_clauses refl

-- A write to a file of the mirror returns the next version; afterwards the file has the content and
-- that version.
pub write_file-get_node_content :
    (node n : Node) (content : Text) (w : World)
    → get node.id w.mirror.nodes ≡ some n
    → n.id ≡ node.id
    → (w' : World) × (write_file node content w ≡ ok (version_or_one n.version_no + 1, w'))
      × (get_node_content w'.mirror node ≡ content)
      × (get_node_version w'.mirror node ≡ version_or_one n.version_no + 1)
unfolding write_file mutate_workspace_mirror mutate_write_file adopt_node get_node_content
    get_node_version mirror_node set_workspace_mirror
write_file-get_node_content node n content w found same =
    let next = version_or_one n.version_no + 1 in
    let written : Node = record n { content_text = content; version_no = next } in
    let m' : WorkspaceMirror = record w.mirror {
      nodes = put n.id written w.mirror.nodes;
      dirty_content_node_ids = add_id n.id w.mirror.dirty_content_node_ids;
      revision = w.mirror.revision + 1;
    } in
    let at : get node.id (put n.id written w.mirror.nodes) ≡ some written =
      ap (λ i. get i (put n.id written w.mirror.nodes)) (sym same)
      ∙ get-put_same written n.id w.mirror.nodes in
    let mutated : mutate_write_file node content w.mirror ≡ ok (next, true, m') =
      rw (found, adopt_node) refl in
    let transaction : Result (ℕ × Bool × WorkspaceMirror) → Result (ℕ × World) = λ r. elim r [
      | raise e ↦ raise e
      | ok (result, changed, m) ↦
          ok (result, if changed then set_workspace_mirror m w else record w { mirror = m })
    ] in
    (
      set_workspace_mirror m' w,
      ap transaction mutated,
      rw (set_workspace_mirror, get_node_content, mirror_node, at) refl,
      rw (set_workspace_mirror, get_node_version, mirror_node, at)
          (version_next (version_or_one n.version_no)),
    )
