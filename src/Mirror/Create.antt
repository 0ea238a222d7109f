-- ===== src/Mirror/Create.antt =====
-- A child that `get_or_create_child` of `runtime/filesystem.py` makes keeps the mirror well formed.
use iruka_virtual_file_syste.Prelude.{
  zero, suc, ◌+◌, ◌≡◌, ◌⊎◌, ◌∙◌, ◌||◌, ◌&&◌, List, refl, sym, ap, inl, inr, Bool, true, false,
  Option, none, some, ℤ, pos, negsuc, pred_int, int_leb, contains, contains-append, is_some, get_or,
  int_eq, option_eq, list_eq, nat_eq, ◌==◌, arith, Bool-cases, Option-cases, beq_refl,
  if◌then◌else◌,
}
use iruka_virtual_file_syste.Text.{Text}
use iruka_virtual_file_syste.Dict.{Dict, get, put}
use iruka_virtual_file_syste.Dict.Laws.{get-put}
use iruka_virtual_file_syste.Result.{ok}
use iruka_virtual_file_syste.Model.{NodeType, dir, Node, WorkspaceMirror}
use iruka_virtual_file_syste.Mirror.Indexing.{
  append_child, ensure_children_sorted_locked, mirror_node_path_locked,
}
use iruka_virtual_file_syste.Mirror.Mutate.{add_child, get_or_create_child, child_path, add_id}
use iruka_virtual_file_syste.Mirror.WellFormed.{
  FreshBelow, ListsKnown, PathsKnown, IsTree, IsWellFormed, id_of_get, put-IdsMatch,
}
use iruka_virtual_file_syste.Mirror.Ancestry.{mirror_node_path_locked-put_new}
use iruka_virtual_file_syste.Mirror.Rebuild.{
  Children, members, ensure_children_sorted_total, ListsKnown-members, members_known,
  members-append_child,
}

int_leb_refl : (i : ℤ) → int_leb i i ≡ true
int_leb_refl (pos n) = ground arith
int_leb_refl (negsuc n) = ground arith

int_leb-pred_int : (i : ℤ) → int_leb i (pred_int i) ≡ false
int_leb-pred_int (pos zero) = refl
int_leb-pred_int (pos (suc n)) = ground arith
int_leb-pred_int (negsuc n) = ground arith

int_leb-pred_int_right : (k i : ℤ) → int_leb k i ≡ false → int_leb k (pred_int i) ≡ false
int_leb-pred_int_right (pos k) (pos zero) h = refl
int_leb-pred_int_right (pos k) (pos (suc n)) h = ground arith
int_leb-pred_int_right (pos k) (negsuc n) h = refl
int_leb-pred_int_right (negsuc k) (pos zero) h = ground arith
int_leb-pred_int_right (negsuc k) (pos (suc n)) h = ground arith
int_leb-pred_int_right (negsuc k) (negsuc n) h = ground arith

-- The next temporary id names no node.
pub next_temp_id_free :
    (next : ℤ) (nodes : Dict ℤ Node) → FreshBelow next nodes → get next nodes ≡ none
next_temp_id_free next nodes fresh = elim (Option-cases (get next nodes)) [
  | inl gone ↦ gone
  | inr (n, found) ↦ ground (arith, fresh next n found, int_leb_refl next)
]

pub get-put_same : (n : Node) (k : ℤ) (nodes : Dict ℤ Node) → get k (put k n nodes) ≡ some n
get-put_same n k nodes = rw get-put (ground (arith, beq_refl k))

get-put_path : (path : Text) (i : ℤ) (index : Dict Text ℤ) → get path (put path i index) ≡ some i
get-put_path path i index = rw get-put (ground (arith, beq_refl path))

get-put_new :
    (n w : Node) (k i : ℤ) (nodes : Dict ℤ Node)
    → get i nodes ≡ none
    → get k nodes ≡ some w
    → get k (put i n nodes) ≡ some w
get-put_new n w k i nodes new found =
    rw get-put
      (ground (arith, new, found, int_eq.beq_iff i k, ap (λ (r : ℤ). get r nodes) {x = i} {y = k}))

pub some_of_put :
    (b : Bool) (n w : Node) (o : Option Node)
    → (if b then some n else o) ≡ some w
    → ((b ≡ true) × (n ≡ w)) ⊎ ((b ≡ false) × (o ≡ some w))
some_of_put true n w o e = inl (refl, ap (λ r. get_or r n) e)
some_of_put false n w o e = inr (refl, e)

-- What the table with one node more holds.
pub get-put-cases :
    (n w : Node) (i k : ℤ) (nodes : Dict ℤ Node)
    → get k (put i n nodes) ≡ some w
    → ((i ≡ k) × (n ≡ w)) ⊎ (((i == k) ≡ false) × (get k nodes ≡ some w))
get-put-cases n w i k nodes e =
    elim (some_of_put (i == k) n w (get k nodes) (sym (get-put k i n nodes) ∙ e)) [
      | inl (same, here) ↦ inl ((int_eq.beq_iff i k).0 same, here)
      | inr (other, there) ↦ inr (other, there)
    ]

-- A free id is not the id of a node.
free_not_used :
    (i q : ℤ) (p : Node) (nodes : Dict ℤ Node)
    → get i nodes ≡ none
    → get q nodes ≡ some p
    → (i == q) ≡ false
free_not_used i q p nodes new found =
    ground (arith, new, found, int_eq.beq_iff i q, ap (λ (r : ℤ). get r nodes) {x = i} {y = q})

put-IsTree :
    (n p : Node) (q : ℤ) (nodes : Dict ℤ Node)
    → IsTree nodes
    → get n.id nodes ≡ none
    → n.parent_id ≡ some q
    → get q nodes ≡ some p
    → p.node_type ≡ dir
    → IsTree (put n.id n nodes)
put-IsTree n p q nodes t new up found d = record {
  ids = put-IdsMatch n nodes t.ids;
  parents = λ k w r e above. elim (get-put-cases n w n.id k nodes e) [
    | inl (at, is) ↦
        let same = ap (λ o. get_or o q) (sym up ∙ ap (λ x. x.parent_id) is ∙ above) in
        (p, get-put_new n p r n.id nodes new (ap (λ i. get i nodes) (sym same) ∙ found), d)
    | inr (other, old) ↦
        let (w', g, dw) = t.parents k w r old above in (w', get-put_new n w' r n.id nodes new g, dw)
  ];
  rank = λ k. if n.id == k then suc (t.rank q) else t.rank k;
  falls = λ k w r e above. elim (get-put-cases n w n.id k nodes e) [
    | inl (at, is) ↦
        let same = ap (λ o. get_or o q) (sym up ∙ ap (λ x. x.parent_id) is ∙ above) in
        ground (
          arith,
          free_not_used n.id q p nodes new found,
          int_eq.beq_iff n.id k,
          ap (λ i. n.id == i) same,
          ap t.rank same,
        )
    | inr (other, old) ↦
        let (w', g, dw) = t.parents k w r old above in
        ground (arith, other, free_not_used n.id r w' nodes new g, t.falls k w r old above)
  ];
}

put-FreshBelow :
    (n : Node) (nodes : Dict ℤ Node)
    → FreshBelow n.id nodes
    → FreshBelow (pred_int n.id) (put n.id n nodes)
put-FreshBelow n nodes fresh = λ k w e. elim (get-put-cases n w n.id k nodes e) [
  | inl (at, is) ↦ ap (λ i. int_leb i (pred_int n.id)) (sym at) ∙ int_leb-pred_int n.id
  | inr (other, old) ↦ int_leb-pred_int_right k n.id (fresh k w old)
]

pub is_some-get-put :
    (n : Node) (i j : ℤ) (nodes : Dict ℤ Node)
    → is_some (get j nodes) ≡ true
    → is_some (get j (put i n nodes)) ≡ true
is_some-get-put n i j nodes h = rw get-put (ground arith)

is_some-get-put_same :
    (n : Node) (i j : ℤ) (nodes : Dict ℤ Node)
    → (i == j) ≡ true
    → is_some (get j (put i n nodes)) ≡ true
is_some-get-put_same n i j nodes h = rw get-put (ground arith)

put-PathsKnown :
    (n : Node) (path : Text) (index : Dict Text ℤ) (nodes : Dict ℤ Node)
    → PathsKnown index nodes
    → PathsKnown (put path n.id index) (put n.id n nodes)
put-PathsKnown n path index nodes known = λ q i e. elim (Bool-cases (path == q)) [
  | inl same ↦
      is_some-get-put_same n n.id i nodes
        (ground (arith, same, get-put q path n.id index, int_eq.beq_iff n.id i))
  | inr other ↦
      is_some-get-put n n.id i nodes (known q i (ground (arith, other, get-put q path n.id index)))
]

-- The list of children with the new one, sorted, names the new node and what it named before, and
-- nodes of the new table only.
child_listed :
    (n : Node) (children : Children) (nodes : Dict ℤ Node)
    → ListsKnown children nodes
    → (sorted : Children) × (ensure_children_sorted_locked
          (put n.id n nodes)
          n.parent_id
          (append_child n.parent_id n.id children)
        ≡ ok sorted)
      × ListsKnown sorted (put n.id n nodes)
      × ((q : Option ℤ) (j : ℤ)
          → contains j (members q sorted)
            ≡ (contains j (members q children) || (n.parent_id == q && n.id == j)))
child_listed n children nodes known =
    let appended : (q : Option ℤ) (j : ℤ)
        → contains j (members q (append_child n.parent_id n.id children)) ≡ true
        → is_some (get j (put n.id n nodes)) ≡ true =
      λ q j m. elim (Bool-cases (n.id == j)) [
        | inl same ↦ is_some-get-put_same n n.id j nodes same
        | inr other ↦ is_some-get-put n n.id j nodes (
            members_known children nodes known q j
              (ground (arith, other, members-append_child n.parent_id q n.id j children)))
      ] in
    let grown = append_child n.parent_id n.id children in
    let (sorted, e, same) =
      ensure_children_sorted_total (put n.id n nodes) n.parent_id grown
        (ListsKnown-members grown (put n.id n nodes) appended) in
    (
      sorted,
      e,
      ListsKnown-members sorted (put n.id n nodes) (λ q j m. appended q j (sym (same q j) ∙ m)),
      λ q j. same q j ∙ members-append_child n.parent_id q n.id j children,
    )

contains-add_id : (j i : ℤ) (ids : List ℤ) → contains j (add_id i ids) ≡ (contains j ids || i == j)
unfolding add_id contains
contains-add_id j i ids = elim (Bool-cases (contains i ids)) [
  | inl marked ↦
      rw marked
        (ground (arith, marked, int_eq.beq_iff i j, ap (λ k. contains k ids) {x = i} {y = j}))
  | inr new ↦ rw new (rw contains-append (ground arith))
]

-- The branch that makes the node succeeds and keeps the mirror well formed.
add_child-IsWellFormed :
    (kind : NodeType) (parent_id : ℤ) (name content path : Text) (m : WorkspaceMirror) (p : Node)
    → IsWellFormed m
    → get parent_id m.nodes ≡ some p
    → p.node_type ≡ dir
    → (node : Node) × (m' : WorkspaceMirror) × (add_child kind parent_id name content path m
        ≡ ok (node, true, m'))
      × (node ≡ record {
        id = m.next_temp_id;
        parent_id = some parent_id;
        name = name;
        node_type = kind;
        content_text = content;
        version_no = 1;
      })
      × (m'.nodes ≡ put node.id node m.nodes)
      × (m'.path_to_id ≡ put path node.id m.path_to_id)
      × ((q : Option ℤ) (j : ℤ)
          → contains j (members q m'.children_by_parent) ≡ (
              contains j (members q m.children_by_parent) || (some parent_id == q && node.id == j)))
      × ((j : ℤ)
          → contains j m'.dirty_structure_node_ids
            ≡ (contains j m.dirty_structure_node_ids || node.id == j))
      × (m'.dirty_content_node_ids ≡ m.dirty_content_node_ids)
      × (m'.revision ≡ m.revision + 1)
      × IsWellFormed m'
unfolding add_child
add_child-IsWellFormed kind parent_id name content path m p wf found d =
    let node : Node = record {
      id = m.next_temp_id;
      parent_id = some parent_id;
      name = name;
      node_type = kind;
      content_text = content;
      version_no = 1;
    } in
    let (children, e, listed, same) = child_listed node m.children_by_parent m.nodes wf.listed in
    (
      node,
      record m {
        next_temp_id = pred_int m.next_temp_id;
        nodes = put node.id node m.nodes;
        children_by_parent = children;
        path_to_id = put path node.id m.path_to_id;
        dirty_structure_node_ids = add_id node.id m.dirty_structure_node_ids;
        revision = m.revision + 1;
      },
      rw e refl,
      refl,
      refl,
      refl,
      same,
      λ j. contains-add_id j node.id m.dirty_structure_node_ids,
      refl,
      refl,
      record {
        tree =
            put-IsTree node p parent_id m.nodes wf.tree
              (next_temp_id_free m.next_temp_id m.nodes wf.fresh) refl found d;
        fresh = put-FreshBelow node m.nodes wf.fresh;
        listed = listed;
        indexed = put-PathsKnown node path m.path_to_id m.nodes wf.indexed;
      },
    )

-- A path that the index has leads to its node, and the mirror stays as it is.
get_or_create_child_found :
    (kind : NodeType) (parent_id i : ℤ) (name content path : Text) (m : WorkspaceMirror)
    (p n : Node)
    → get parent_id m.nodes ≡ some p
    → p.node_type ≡ dir
    → mirror_node_path_locked m.nodes p ≡ ok path
    → get (child_path path name) m.path_to_id ≡ some i
    → get i m.nodes ≡ some n
    → get_or_create_child kind parent_id name content m ≡ ok (n, false, m)
unfolding get_or_create_child
get_or_create_child_found kind parent_id i name content path m p n found d e indexed g =
    rw (found, get_or_create_child) (rw e (rw d (ground (arith, indexed, g))))

get_or_create_child_absent :
    (kind : NodeType) (parent_id : ℤ) (name content path : Text) (m : WorkspaceMirror) (p : Node)
    → get parent_id m.nodes ≡ some p
    → p.node_type ≡ dir
    → mirror_node_path_locked m.nodes p ≡ ok path
    → get (child_path path name) m.path_to_id ≡ none
    → get_or_create_child kind parent_id name content m
      ≡ add_child kind parent_id name content (child_path path name) m
unfolding get_or_create_child
get_or_create_child_absent kind parent_id name content path m p found d e absent =
    rw (found, get_or_create_child) (rw e (rw d (ground (arith, absent))))

-- A directory that lacks the child gets it: a node of version 1 with the next temporary id, the
-- directory as its parent and the name, type and content that were asked for. The table and the
-- path index hold the node under its id and its path and are otherwise as before, the list of its
-- parent's children names it, it is marked as a dirty structure, nothing else changes in the lists
-- of children and in both sets of dirty ids, and the revision is one greater. The mirror stays well
-- formed, and the same call again, with any content, finds the node and changes nothing. The
-- conditions are that the mirror is well formed, that the parent is a directory with a path, and
-- that the index lacks the child's path.
pub get_or_create_child_lem :
    (kind : NodeType) (parent_id : ℤ) (name content again path : Text) (m : WorkspaceMirror)
    (p : Node)
    → IsWellFormed m
    → get parent_id m.nodes ≡ some p
    → p.node_type ≡ dir
    → mirror_node_path_locked m.nodes p ≡ ok path
    → get (child_path path name) m.path_to_id ≡ none
    → (node : Node) × (m' : WorkspaceMirror) × (get_or_create_child kind parent_id name content m
        ≡ ok (node, true, m'))
      × (node ≡ record {
        id = m.next_temp_id;
        parent_id = some parent_id;
        name = name;
        node_type = kind;
        content_text = content;
        version_no = 1;
      })
      × (m'.nodes ≡ put node.id node m.nodes)
      × (m'.path_to_id ≡ put (child_path path name) node.id m.path_to_id)
      × ((q : Option ℤ) (j : ℤ)
          → contains j (members q m'.children_by_parent) ≡ (
              contains j (members q m.children_by_parent) || (some parent_id == q && node.id == j)))
      × ((j : ℤ)
          → contains j m'.dirty_structure_node_ids
            ≡ (contains j m.dirty_structure_node_ids || node.id == j))
      × (m'.dirty_content_node_ids ≡ m.dirty_content_node_ids)
      × (m'.revision ≡ m.revision + 1)
      × IsWellFormed m'
      × (get_or_create_child kind parent_id name again m' ≡ ok (node, false, m'))
get_or_create_child_lem kind parent_id name content again path m p wf found d e absent =
    let (node, m', added, made, nodes, index, children, dirty, clean, revision, wf') =
      add_child-IsWellFormed kind parent_id name content (child_path path name) m p wf found d in
    let id = ap (λ (n : Node). n.id) made in
    let new : get node.id m.nodes ≡ none =
      ap (λ i. get i m.nodes) id ∙ next_temp_id_free m.next_temp_id m.nodes wf.fresh in
    let there = ap (get parent_id) nodes ∙ get-put_new node p parent_id node.id m.nodes new found in
    let path' =
      ap (λ t. mirror_node_path_locked t p) nodes
      ∙ mirror_node_path_locked-put_new m.nodes node.id node p path wf.tree new
          (ap (λ i. get i m.nodes) (id_of_get parent_id m.nodes wf.tree.ids found) ∙ found) e in
    (
      node,
      m',
      get_or_create_child_absent kind parent_id name content path m p found d e absent ∙ added,
      made,
      nodes,
      index,
      children,
      dirty,
      clean,
      revision,
      wf',
      get_or_create_child_found kind parent_id node.id name again path m' p node there d path'
          (ap (get (child_path path name)) index
            ∙ get-put_path (child_path path name) node.id m.path_to_id)
          (ap (get node.id) nodes ∙ get-put_same node node.id m.nodes),
    )
