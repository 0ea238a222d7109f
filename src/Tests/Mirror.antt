-- ===== src/Tests/Mirror.antt =====
-- The theorems of the mirror at a workspace that has its root only.
use iruka_virtual_file_syste.Prelude.{
  ◌≡◌, refl, sym, ap, inl, inr, true, false, none, some, [], ◌∷◌, ℤ, pos, negsuc, contains, int_leb,
  int_eq, list_eq, nat_eq, arith, is_some, ◌==◌, ◌||◌, ◌&&◌, Option, option_eq,
}
use iruka_virtual_file_syste.Text.{text}
use iruka_virtual_file_syste.Dict.{get, put}
use iruka_virtual_file_syste.Result.{ok}
use iruka_virtual_file_syste.Model.{Node, dir, file, WorkspaceMirror}
use iruka_virtual_file_syste.Mirror.Indexing.{mirror_node_path_locked}
use iruka_virtual_file_syste.Mirror.Mutate.{get_or_create_child, mutate_write_file, child_path}
use iruka_virtual_file_syste.Mirror.WellFormed.{IsWellFormed}
use iruka_virtual_file_syste.Mirror.Rebuild.{members}
use iruka_virtual_file_syste.Mirror.Create.{get_or_create_child_lem, some_of_put}
use iruka_virtual_file_syste.Mirror.Write.{mutate_write_file_lem}

abbrev root : Node
root = record {
  id = pos 1;
  parent_id = none;
  name = [];
  node_type = dir;
  content_text = [];
  version_no = 1;
}

abbrev small_mirror : WorkspaceMirror
small_mirror = record {
  tenant_key = text "t";
  scope_key = text "s";
  workspace_id = pos 1;
  root_id = pos 1;
  session_id = pos 1;
  cwd_node_id = pos 1;
  nodes = (pos 1, root) ∷ [];
  path_to_id = [];
  children_by_parent = [];
  workspace_metadata = [];
  revision = 4;
  checkpoint_revision = 4;
  dirty_content_node_ids = [];
  dirty_structure_node_ids = [];
  dirty_session = false;
  dirty_workspace_metadata = false;
  next_temp_id = negsuc 0;
}

only_root :
    (k : ℤ) (n : Node) → get k small_mirror.nodes ≡ some n → ((pos 1 == k) ≡ true) × (root ≡ n)
unfolding get
only_root k n e = elim (some_of_put (pos 1 == k) root n none e) [
  | inl here ↦ here
  | inr (other, nothing) ↦ absurd (ground arith)
]

small_mirror-IsWellFormed : IsWellFormed small_mirror
unfolding get
small_mirror-IsWellFormed = record {
  tree = record {
    ids = (refl, tt);
    parents = λ k n q e up. absurd (orphan k n q e up);
    rank = λ k. 0;
    falls = λ k n q e up. absurd (orphan k n q e up);
  };
  fresh = λ k n e.
      ap (λ i. int_leb i (negsuc 0)) (sym ((int_eq.beq_iff (pos 1) k).0 (only_root k n e).0));
  listed = λ p ids e i h. absurd (ground arith);
  indexed = λ path i e. absurd (ground arith);
}
  where
    orphan :
        (k : ℤ) (n : Node) (q : ℤ) → get k small_mirror.nodes ≡ some n → n.parent_id ≡ some q → ⊥
    orphan k n q e up =
        ground (arith, ap (λ (x : Node). is_some x.parent_id) (only_root k n e).1, up)

get_or_create_child_example :
    (node : Node) × (m' : WorkspaceMirror) × (get_or_create_child file
        (pos 1)
        (text "a")
        (text "x")
        small_mirror
      ≡ ok (node, true, m'))
    × (node ≡ record {
      id = negsuc 0;
      parent_id = some (pos 1);
      name = text "a";
      node_type = file;
      content_text = text "x";
      version_no = 1;
    })
    × (m'.nodes ≡ put node.id node small_mirror.nodes)
    × (m'.path_to_id ≡ put (child_path (text "/") (text "a")) node.id [])
    × ((q : Option ℤ) (j : ℤ)
        → contains j (members q m'.children_by_parent)
          ≡ (contains j (members q []) || (some (pos 1) == q && node.id == j)))
    × ((j : ℤ) → contains j m'.dirty_structure_node_ids ≡ (contains j [] || node.id == j))
    × (m'.dirty_content_node_ids ≡ [])
    × (m'.revision ≡ 5)
    × IsWellFormed m'
    × (get_or_create_child file (pos 1) (text "a") [] m' ≡ ok (node, false, m'))
unfolding get mirror_node_path_locked
get_or_create_child_example =
    get_or_create_child_lem file (pos 1) (text "a") (text "x") [] (text "/") small_mirror root
      small_mirror-IsWellFormed refl refl refl refl

mutate_write_file_example :
    (m' : WorkspaceMirror) × (mutate_write_file root (text "new") small_mirror ≡ ok (2, true, m'))
    × (get (pos 1) m'.nodes ≡ some (record root { content_text = text "new"; version_no = 2 }))
    × (contains (pos 1) m'.dirty_content_node_ids ≡ true)
    × (m'.revision ≡ 5)
    × IsWellFormed m'
unfolding get
mutate_write_file_example =
    mutate_write_file_lem root root (text "new") small_mirror small_mirror-IsWellFormed refl
