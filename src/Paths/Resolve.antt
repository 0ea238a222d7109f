-- ===== src/Paths/Resolve.antt =====
-- `pathing/resolution.py` where the workspace has a mirror: from paths to nodes and back.
use iruka_virtual_file_syste.Prelude.{
  true, false, not, Option, none, some, List, [], ◌∷◌, ◌++◌, ℤ, keep, get_or, int_eq, nat_eq,
  list_eq, option_eq, ◌==◌, if◌then◌else◌,
}
use iruka_virtual_file_syste.Text.{Text, text, starts_with, split_on}
use iruka_virtual_file_syste.Text.Strip.{rstrip_char}
use iruka_virtual_file_syste.Dict.{Dict, get}
use iruka_virtual_file_syste.Result.{Result, ok, key_error, require, ◌>>=◌}
use iruka_virtual_file_syste.Model.{Node, WorkspaceMirror, is_dir}
use iruka_virtual_file_syste.Mirror.Indexing.{mirror_node_path_locked}

-- `[item for item in path.split("/") if item]`
unfoldable pub path_parts : Text → List Text
path_parts path = keep (λ part. not (part == [])) (split_on b'/' path)

-- `next((mirror.nodes[i] for i in ids if mirror.nodes[i].name == part), None)`
unfoldable pub find_child : Dict ℤ Node → List ℤ → Text → Result (Option Node)
find_child nodes [] part = ok none
find_child nodes (i ∷ ids) part = elim (require key_error (get i nodes)) [
  | Result.raise e ↦ Result.raise e
  | ok child ↦ elim (child.name == part) [
    | true ↦ ok (some child)
    | false ↦ find_child nodes ids part
  ]
]

-- `mirror.children_by_parent.get(parent_id, [])`
abbrev pub child_ids : WorkspaceMirror → ℤ → List ℤ
child_ids m i = get_or (get (some i) m.children_by_parent) []

-- The loop over the parts of a path. The root's parent is the root.
unfoldable pub walk : WorkspaceMirror → Node → List Text → Result (Option Node)
walk m current [] = ok (some current)
walk m current (part ∷ parts) = elim (part == text ".") [
  | true ↦ walk m current parts
  | false ↦ elim (part == text "..") [
    | true ↦ elim current.parent_id [
      | none ↦ walk m current parts
      | some p ↦ elim (get p m.nodes) [ none ↦ ok none | some parent ↦ walk m parent parts ]
    ]
    | false ↦ elim (find_child m.nodes (child_ids m current.id) part) [
      | Result.raise e ↦ Result.raise e
      | ok none ↦ ok none
      | ok (some child) ↦ walk m child parts
    ]
  ]
]

-- `resolve_path`
unfoldable pub resolve_path : WorkspaceMirror → ℤ → Text → Result (Option Node)
unfolding path_parts
resolve_path m cwd_node_id [] = ok none
resolve_path m cwd_node_id (c ∷ s) = elim (c ∷ s == text "/") [
  | true ↦ ok (get m.root_id m.nodes)
  | false ↦ elim (get (if c == b'/' then m.root_id else cwd_node_id) m.nodes) [
    | none ↦ ok none
    | some current ↦ walk m current (path_parts (c ∷ s))
  ]
]

unfoldable pub from_parts : List Text → Text × Text
from_parts [] = ([], [])
from_parts (p ∷ []) = ([], p)
from_parts (p ∷ q ∷ []) = (p, q)
from_parts (p ∷ q ∷ r ∷ ps) =
    let (front, leaf) = from_parts (q ∷ r ∷ ps) in (p ++ (text "/" ++ front), leaf)

-- `s.rpartition("/")` without the separator
unfoldable pub rpartition : Text → Text × Text
unfolding from_parts
rpartition s = from_parts (split_on b'/' s)

-- A node that is missing or no directory counts as missing.
unfoldable pub dir_only : Option Node → Option Node
dir_only none = none
dir_only (some n) = if is_dir n.node_type then some n else none

-- The parent for the two parts of a path that is not empty.
unfoldable pub resolve_parent_parts :
    WorkspaceMirror → ℤ → Text → Text → Text → Result (Option Node × Text)
unfolding dir_only
resolve_parent_parts m cwd_node_id raw_path parent_path [] = ok (none, [])
resolve_parent_parts m cwd_node_id raw_path [] (d ∷ leaf) = do
  parent ←
      resolve_path m cwd_node_id (if starts_with raw_path (text "/") then text "/" else text ".")
  ok (parent, d ∷ leaf)
resolve_parent_parts m cwd_node_id raw_path (p ∷ parent_path) (d ∷ leaf) = do
  parent ← resolve_path m cwd_node_id (p ∷ parent_path)
  ok (dir_only parent, d ∷ leaf)

-- `resolve_parent_for_create`: the parent, if there is one, and the leaf
unfoldable pub resolve_parent_for_create : WorkspaceMirror → ℤ → Text → Result (Option Node × Text)
unfolding resolve_parent_parts
resolve_parent_for_create m cwd_node_id raw_path = elim (rstrip_char b'/' raw_path) [
  | [] ↦ ok (none, [])
  | c ∷ s ↦
      let (parent_path, leaf) = rpartition (c ∷ s) in
      resolve_parent_parts m cwd_node_id raw_path parent_path leaf
]

-- `[mirror.nodes[i] for i in ids]`
unfoldable pub nodes_of : Dict ℤ Node → List ℤ → Result (List Node)
nodes_of nodes [] = ok []
nodes_of nodes (i ∷ ids) = do
  child ← require key_error (get i nodes)
  rest ← nodes_of nodes ids
  ok (child ∷ rest)

-- `list_children`
unfoldable pub list_children : WorkspaceMirror → ℤ → Result (List Node)
list_children m parent_id = nodes_of m.nodes (child_ids m parent_id)

-- `node_path`: the path of the mirror's node, or of the caller's copy
unfoldable pub node_path : WorkspaceMirror → Node → Result Text
node_path m node = mirror_node_path_locked m.nodes (get_or (get node.id m.nodes) node)
