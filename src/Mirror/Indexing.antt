-- ===== src/Mirror/Indexing.antt =====
-- `mirror/indexing.py`: paths of nodes, sorted children and the two indexes of a mirror.
use iruka_virtual_file_syste.Prelude.{
  ℕ, zero, suc, Bool, true, false, Option, none, some, List, [], ◌∷◌, ◌++◌, map, ℤ, length, int_eq,
  option_eq, list_eq, nat_eq,
}
use iruka_virtual_file_syste.Text.{Text, text, join}
use iruka_virtual_file_syste.Dict.{Dict, get, put, keys, values}
use iruka_virtual_file_syste.Result.{Result, ok, raise, key_error, diverges, require, ◌>>=◌}
use iruka_virtual_file_syste.Sorting.{sort_by, text_leb}
use iruka_virtual_file_syste.Model.{NodeType, dir, file, Node, WorkspaceMirror}

-- `(a.node_type, a.name) <= (b.node_type, b.name)`: "dir" comes before "file"
unfoldable pub node_leb : Node → Node → Bool
node_leb a b = type_leb a.node_type b.node_type (text_leb a.name b.name)
  where
    type_leb : NodeType → NodeType → Bool → Bool
    type_leb dir dir names = names
    type_leb dir file names = true
    type_leb file dir names = false
    type_leb file file names = names

-- `mirror.nodes[node_id]` for each id
unfoldable pub lookup_nodes : Dict ℤ Node → List ℤ → Result (List (ℤ × Node))
lookup_nodes nodes [] = ok []
lookup_nodes nodes (i ∷ ids) = do
  node ← require key_error (get i nodes)
  rest ← lookup_nodes nodes ids
  ok ((i, node) ∷ rest)

unfoldable pub sorted_children : Dict ℤ Node → List ℤ → Result (List ℤ)
unfolding lookup_nodes
sorted_children nodes ids = do
  found ← lookup_nodes nodes ids
  ok (map (λ (i, node). i) (sort_by (λ (i, a) (j, b). node_leb a b) found))

-- A missing parent has an empty list of children, which is sorted and dropped.
unfoldable pub ensure_children_sorted_locked :
    Dict ℤ Node → Option ℤ → Dict (Option ℤ) (List ℤ) → Result (Dict (Option ℤ) (List ℤ))
unfolding sorted_children
ensure_children_sorted_locked nodes parent_id children = elim (get parent_id children) [
  | none ↦ ok children
  | some ids ↦ do sorted ← sorted_children nodes ids; ok (put parent_id sorted children)
]

-- The names from below the root down to the node, the loop of `mirror_node_path_locked`. `none`
-- means that the fuel ran out.
unfoldable pub names_to_root : ℕ → Dict ℤ Node → Option ℤ → List Text → Option (List Text)
names_to_root fuel nodes none names = some names
names_to_root zero nodes (some p) names = none
names_to_root (suc fuel) nodes (some p) names = elim (get p nodes) [
  | none ↦ some names
  | some parent ↦ elim parent.parent_id [
    | none ↦ some names
    | some q ↦ names_to_root fuel nodes (some q) (parent.name ∷ names)
  ]
]

unfoldable pub mirror_node_path_locked : Dict ℤ Node → Node → Result Text
unfolding names_to_root
mirror_node_path_locked nodes node = elim node.parent_id [
  | none ↦ ok (text "/")
  | some p ↦ elim (names_to_root (suc (length nodes)) nodes (some p) (node.name ∷ [])) [
    | none ↦ raise diverges
    | some names ↦ ok (text "/" ++ join (text "/") names)
  ]
]

-- `children_by_parent.setdefault(parent_id, []).append(node_id)`
unfoldable pub append_child : Option ℤ → ℤ → Dict (Option ℤ) (List ℤ) → Dict (Option ℤ) (List ℤ)
append_child parent_id i children = elim (get parent_id children) [
  | none ↦ put parent_id (i ∷ []) children
  | some ids ↦ put parent_id (ids ++ (i ∷ [])) children
]

unfoldable pub group_children : List Node → Dict (Option ℤ) (List ℤ) → Dict (Option ℤ) (List ℤ)
group_children [] children = children
group_children (node ∷ rest) children =
    group_children rest (append_child node.parent_id node.id children)

unfoldable pub sort_all :
    Dict ℤ Node → List (Option ℤ) → Dict (Option ℤ) (List ℤ) → Result (Dict (Option ℤ) (List ℤ))
sort_all nodes [] children = ok children
sort_all nodes (p ∷ parents) children = do
  sorted ← ensure_children_sorted_locked nodes p children
  sort_all nodes parents sorted

unfoldable pub index_paths : Dict ℤ Node → List Node → Dict Text ℤ → Result (Dict Text ℤ)
index_paths nodes [] index = ok index
index_paths nodes (node ∷ rest) index = do
  path ← mirror_node_path_locked nodes node
  index_paths nodes rest (put path node.id index)

unfoldable pub rebuild_workspace_mirror_indexes_locked : WorkspaceMirror → Result WorkspaceMirror
unfolding group_children sort_all index_paths
rebuild_workspace_mirror_indexes_locked m = do
  let grouped = group_children (values m.nodes) []
  children ← sort_all m.nodes (keys grouped) grouped
  index ← index_paths m.nodes (values m.nodes) []
  ok (record m { path_to_id = index; children_by_parent = children })
