-- ===== src/Mirror/Rebuild.antt =====
-- Sorting the children and rebuilding the indexes succeed on a tree, and name only its nodes.
use iruka_virtual_file_syste.Prelude.{
  ◌≡◌, ◌∙◌, refl, ap, inl, inr, Bool, true, ◌||◌, ◌&&◌, Option, List, [], ◌∷◌, map, ℤ, contains,
  is_some, get_or, int_eq, option_eq, list_eq, nat_eq, ◌==◌, arith, Option-cases, beq_refl,
  contains-append, option_beq_iff,
}
use iruka_virtual_file_syste.Dict.{Dict, get, put}
use iruka_virtual_file_syste.Dict.Laws.{get-put}
use iruka_virtual_file_syste.Result.{ok}
use iruka_virtual_file_syste.Sorting.{sort_by, contains-map-sort_by}
use iruka_virtual_file_syste.Model.{Node}
use iruka_virtual_file_syste.Mirror.Indexing.{
  node_leb, lookup_nodes, sorted_children, ensure_children_sorted_locked, append_child,
}
use iruka_virtual_file_syste.Mirror.WellFormed.{ListsKnown}

abbrev pub Children : Type 0
Children = Dict (Option ℤ) (List ℤ)

abbrev pub members : Option ℤ → Children → List ℤ
members p children = get_or (get p children) []

lookup_nodes_total :
    (nodes : Dict ℤ Node) (ids : List ℤ)
    → ((i : ℤ) → contains i ids ≡ true → is_some (get i nodes) ≡ true)
    → (found : List (ℤ × Node)) × (lookup_nodes nodes ids ≡ ok found)
      × (map (λ (i, node). i) found ≡ ids)
unfolding lookup_nodes contains
lookup_nodes_total nodes [] known = ([], refl, refl)
lookup_nodes_total nodes (i ∷ ids) known =
    let (rest, e, same) = lookup_nodes_total nodes ids (λ j m. known j (ground (arith, m))) in
    elim (Option-cases (get i nodes)) [
      | inl gone ↦ ground (arith, known i, beq_refl i)
      | inr (node, found) ↦
          ((i, node) ∷ rest, rw (found, lookup_nodes) (rw e refl), ap (◌∷◌ i) same)
    ]

sorted_children_total :
    (nodes : Dict ℤ Node) (ids : List ℤ)
    → ((i : ℤ) → contains i ids ≡ true → is_some (get i nodes) ≡ true)
    → (out : List ℤ) × (sorted_children nodes ids ≡ ok out)
      × ((j : ℤ) → contains j out ≡ contains j ids)
unfolding sorted_children
sorted_children_total nodes ids known =
    let (found, e, same) = lookup_nodes_total nodes ids known in
    let le : ℤ × Node → ℤ × Node → Bool = λ (i, a) (j, b). node_leb a b in
    (
      map (λ (i, node). i) (sort_by le found),
      rw e refl,
      λ j. contains-map-sort_by le (λ (i, node). i) j found ∙ ap (contains j) same,
    )

-- Sorting one list of children succeeds and keeps the members of every list.
pub ensure_children_sorted_total :
    (nodes : Dict ℤ Node) (p : Option ℤ) (children : Children)
    → ListsKnown children nodes
    → (sorted : Children) × (ensure_children_sorted_locked nodes p children ≡ ok sorted)
      × ((q : Option ℤ) (j : ℤ) → contains j (members q sorted) ≡ contains j (members q children))
unfolding ensure_children_sorted_locked
ensure_children_sorted_total nodes p children known = elim (Option-cases (get p children)) [
  | inl gone ↦ (children, rw (gone, ensure_children_sorted_locked), λ q j. refl)
  | inr (ids, found) ↦
      let (out, e, same) = sorted_children_total nodes ids (known p ids found) in
      (
        put p out children,
        rw (found, ensure_children_sorted_locked) (rw e refl),
        λ q j. rw get-put (
            ground (
              arith,
              found,
              option_beq_iff p q,
              same j,
              ap (λ (r : Option ℤ). get r children) {x = p} {y = q},
            )),
      )
]

-- Lists with known members, by their members.
pub ListsKnown-members :
    (children : Children) (nodes : Dict ℤ Node)
    → ((q : Option ℤ) (j : ℤ)
        → contains j (members q children) ≡ true
        → is_some (get j nodes) ≡ true)
    → ListsKnown children nodes
ListsKnown-members children nodes h = λ p ids e i m. h p i (rw e m)

pub members_known :
    (children : Children) (nodes : Dict ℤ Node)
    → ListsKnown children nodes
    → (q : Option ℤ) (j : ℤ) → contains j (members q children) ≡ true
    → is_some (get j nodes) ≡ true
unfolding contains
members_known children nodes h q j m = elim (Option-cases (get q children)) [
  | inl gone ↦ ground (arith, gone)
  | inr (ids, found) ↦ h q ids found j (ground (arith, found))
]

pub members-append_child :
    (p q : Option ℤ) (i j : ℤ) (children : Children)
    → contains j (members q (append_child p i children))
      ≡ (contains j (members q children) || (p == q && i == j))
unfolding append_child contains
members-append_child p q i j children = elim (Option-cases (get p children)) [
  | inl gone ↦
      rw (gone, append_child)
        (rw get-put (
          ground (
            arith,
            gone,
            option_beq_iff p q,
            ap (λ (r : Option ℤ). get r children) {x = p} {y = q},
          )))
  | inr (ids, found) ↦
      rw (found, append_child)
        (rw get-put (
          ground (
            arith,
            found,
            option_beq_iff p q,
            contains-append j ids (i ∷ []),
            ap (λ (r : Option ℤ). get r children) {x = p} {y = q},
          )))
]
