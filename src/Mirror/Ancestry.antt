-- ===== src/Mirror/Ancestry.antt =====
-- The walk to the root ends on a tree, and a new node does not change the paths of the others.
use iruka_virtual_file_syste.Prelude.{
  ℕ, zero, suc, ◌+◌, ◌≤◌, ◌<◌, ◌≡◌, refl, ap, inl, inr, true, Option, none, some, List, [], ◌∷◌,
  ◌++◌, ℤ, length, is_some, int_eq, ◌==◌, arith, Bool-cases, Option-cases, leb, if◌then◌else◌,
}
use iruka_virtual_file_syste.Text.{Text, text, join}
use iruka_virtual_file_syste.Dict.{Dict, get, put}
use iruka_virtual_file_syste.Dict.Laws.{get-put}
use iruka_virtual_file_syste.Result.{ok}
use iruka_virtual_file_syste.Model.{Node}
use iruka_virtual_file_syste.Mirror.Indexing.{names_to_root, mirror_node_path_locked}
use iruka_virtual_file_syste.Mirror.WellFormed.{FallsToRoot, ParentsAreDirs, IsTree}

-- How many nodes have a rank of at most `r`.
abbrev ranked_below : (ℤ → ℕ) → ℕ → Dict ℤ Node → ℕ
ranked_below rank r [] = 0
ranked_below rank r ((k, n) ∷ nodes) = (if leb (rank k) r then 1 else 0) + ranked_below rank r nodes

module _ (rank : ℤ → ℕ) where
  ranked_below-le-length : (r : ℕ) (nodes : Dict ℤ Node) → ranked_below rank r nodes ≤ length nodes
  ranked_below-le-length r [] = omega arith
  ranked_below-le-length r ((k, n) ∷ nodes) = ground (arith, ranked_below-le-length r nodes)

  ranked_below_mono :
      (r s : ℕ) (nodes : Dict ℤ Node)
      → r ≤ s
      → ranked_below rank r nodes ≤ ranked_below rank s nodes
  ranked_below_mono r s [] h = omega arith
  ranked_below_mono r s ((k, n) ∷ nodes) h = ground (arith, ranked_below_mono r s nodes h)

  -- A node of the table between two ranks counts for the higher one only.
  ranked_below_strict :
      (r : ℕ) (k : ℤ) (nodes : Dict ℤ Node) {n : Node}
      → get k nodes ≡ some n
      → r < rank k
      → ranked_below rank r nodes < ranked_below rank (rank k) nodes
  unfolding get
  ranked_below_strict r k [] e h = ground arith
  ranked_below_strict r k ((j, w) ∷ nodes) {n} e h = elim (Bool-cases (j == k)) [
    | inl same ↦ ground (
      arith,
      int_eq.beq_iff j k,
      ap rank ((int_eq.beq_iff j k).0 same),
      ranked_below_mono r (rank k) nodes,
    )
    | inr other ↦ ground (arith, ranked_below_strict r k nodes {n = n})
  ]

  names_to_root_total :
      (fuel : ℕ) (nodes : Dict ℤ Node) (p : ℤ) (names : List Text)
      → FallsToRoot rank nodes
      → ranked_below rank (rank p) nodes < fuel
      → (out : List Text) × (names_to_root fuel nodes (some p) names ≡ some out)
  unfolding names_to_root
  names_to_root_total zero nodes p names falls h = absurd (omega arith)
  names_to_root_total (suc fuel) nodes p names falls h = elim (Option-cases (get p nodes)) [
    | inl gone ↦ (names, rw (gone, names_to_root))
    | inr (parent, found) ↦ elim (Option-cases parent.parent_id) [
      | inl root ↦ (names, rw (found, root, names_to_root))
      | inr (q, up) ↦
          let (out, e) = names_to_root_total fuel nodes q (parent.name ∷ names) falls (
            omega
              (arith, ranked_below_strict (rank q) p nodes found (falls p parent q found up))) in
          (out, rw (found, up, names_to_root) e)
    ]
  ]

-- On a tree the path of any node is computed: the fuel is the number of nodes and one.
pub mirror_node_path_locked_total :
    (nodes : Dict ℤ Node) (node : Node)
    → IsTree nodes
    → (path : Text) × (mirror_node_path_locked nodes node ≡ ok path)
unfolding mirror_node_path_locked
mirror_node_path_locked_total nodes node t = elim (Option-cases node.parent_id) [
  | inl root ↦ (text "/", rw (root, mirror_node_path_locked))
  | inr (p, up) ↦
      let (names, e) =
        names_to_root_total t.rank (suc (length nodes)) nodes p (node.name ∷ []) t.falls
          (omega (arith, ranked_below-le-length t.rank (t.rank p) nodes)) in
      (text "/" ++ join (text "/") names, rw (up, mirror_node_path_locked) (rw e refl))
]

names_to_root_more :
    (fuel : ℕ) (nodes : Dict ℤ Node) (p : Option ℤ) (names : List Text) {out : List Text}
    → names_to_root fuel nodes p names ≡ some out
    → names_to_root (suc fuel) nodes p names ≡ some out
unfolding names_to_root
names_to_root_more fuel nodes none names e = e
names_to_root_more zero nodes (some p) names e = ground arith
names_to_root_more (suc fuel) nodes (some p) names {out} e = elim (Option-cases (get p nodes)) [
  | inl gone ↦ ground (arith, gone)
  | inr (parent, found) ↦ ground (
    arith,
    found,
    names_to_root_more fuel nodes parent.parent_id (parent.name ∷ names) {out = out},
  )
]

names_to_root-put_new :
    (fuel : ℕ) (nodes : Dict ℤ Node) (k : ℤ) (n : Node) (p : ℤ) (names : List Text)
    → get k nodes ≡ none
    → ParentsAreDirs nodes
    → is_some (get p nodes) ≡ true
    → names_to_root fuel (put k n nodes) (some p) names ≡ names_to_root fuel nodes (some p) names
unfolding names_to_root
names_to_root-put_new zero nodes k n p names new dirs known = refl
names_to_root-put_new (suc fuel) nodes k n p names new dirs known =
    elim (Option-cases (get p nodes)) [
      | inl gone ↦ ground arith
      | inr (parent, found) ↦
          let here : get p (put k n nodes) ≡ some parent =
            rw get-put
              (ground (arith, int_eq.beq_iff k p, ap (λ (i : ℤ). get i nodes) {x = k} {y = p})) in
          elim (Option-cases parent.parent_id) [
            | inl root ↦ rw (here, found, root, names_to_root)
            | inr (q, up) ↦
                let (above, e, d) = dirs p parent q found up in
                rw (here, found, up, names_to_root)
                  (names_to_root-put_new fuel nodes k n q (parent.name ∷ names) new dirs
                    (rw e refl))
          ]
    ]

length-put_new :
    (k : ℤ) (n : Node) (nodes : Dict ℤ Node)
    → get k nodes ≡ none
    → length (put k n nodes) ≡ suc (length nodes)
unfolding put get
length-put_new k n [] e = refl
length-put_new k n ((j, w) ∷ nodes) e = ground (arith, length-put_new k n nodes)

-- A node that enters a tree under a new id leaves the paths of the tree's nodes as they were.
pub mirror_node_path_locked-put_new :
    (nodes : Dict ℤ Node) (k : ℤ) (n node : Node) (path : Text)
    → IsTree nodes
    → get k nodes ≡ none
    → get node.id nodes ≡ some node
    → mirror_node_path_locked nodes node ≡ ok path
    → mirror_node_path_locked (put k n nodes) node ≡ ok path
unfolding mirror_node_path_locked
mirror_node_path_locked-put_new nodes k n node path t new found e =
    elim (Option-cases node.parent_id) [
      | inl root ↦ ground arith
      | inr (p, up) ↦
          let (above, g, d) = t.parents node.id node p found up in
          let (names, walk) =
            names_to_root_total t.rank (suc (length nodes)) nodes p (node.name ∷ []) t.falls
              (omega (arith, ranked_below-le-length t.rank (t.rank p) nodes)) in
          let walk' =
            names_to_root_more (suc (length nodes)) nodes (some p) (node.name ∷ []) walk in
          ground (
            arith,
            up,
            walk,
            walk',
            length-put_new k n nodes new,
            names_to_root-put_new (suc (suc (length nodes))) nodes k n p (node.name ∷ []) new
                t.parents (rw g refl),
          )
    ]
