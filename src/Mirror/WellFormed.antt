-- ===== src/Mirror/WellFormed.antt =====
-- The invariant of a mirror: its nodes form a tree below directories, every node stands under its
-- own id, temporary ids that are still to be given out are free, and the indexes name only nodes.
use iruka_virtual_file_syste.Prelude.{
  ℕ, ◌<◌, ◌≡◌, refl, inl, inr, true, false, Option, some, List, [], ◌∷◌, ℤ, contains, is_some,
  int_eq, option_eq, list_eq, nat_eq, ◌==◌, int_leb, arith, Bool-cases,
}
use iruka_virtual_file_syste.Text.{Text}
use iruka_virtual_file_syste.Dict.{Dict, get, put, remove}
use iruka_virtual_file_syste.Model.{Node, dir, WorkspaceMirror}

-- Every node stands under its id.
abbrev pub IdsMatch : Dict ℤ Node → Type 0
IdsMatch [] = Unit
IdsMatch ((k, n) ∷ nodes) = (n.id ≡ k) × IdsMatch nodes

-- A parent is a directory of the table.
abbrev pub ParentsAreDirs : Dict ℤ Node → Type 0
ParentsAreDirs nodes =
    (k : ℤ) (n : Node) (q : ℤ)
    → get k nodes ≡ some n
    → n.parent_id ≡ some q
    → (p : Node) × (get q nodes ≡ some p) × (p.node_type ≡ dir)

-- The rank falls on the way to the root, so there is no cycle.
abbrev pub FallsToRoot : (ℤ → ℕ) → Dict ℤ Node → Type 0
FallsToRoot rank nodes =
    (k : ℤ) (n : Node) (q : ℤ) → get k nodes ≡ some n → n.parent_id ≡ some q → rank q < rank k

-- Ids from `next` downwards are free.
abbrev pub FreshBelow : ℤ → Dict ℤ Node → Type 0
FreshBelow next nodes = (k : ℤ) (n : Node) → get k nodes ≡ some n → int_leb k next ≡ false

-- The children lists and the path index name nodes of the table.
abbrev pub ListsKnown : Dict (Option ℤ) (List ℤ) → Dict ℤ Node → Type 0
ListsKnown children nodes =
    (p : Option ℤ) (ids : List ℤ)
    → get p children ≡ some ids
    → (i : ℤ) → contains i ids ≡ true
    → is_some (get i nodes) ≡ true

abbrev pub PathsKnown : Dict Text ℤ → Dict ℤ Node → Type 0
PathsKnown index nodes =
    (path : Text) (i : ℤ) → get path index ≡ some i → is_some (get i nodes) ≡ true

pub record IsTree (nodes : Dict ℤ Node) : Type 0 where
  pub ids : IdsMatch nodes
  pub parents : ParentsAreDirs nodes
  pub rank : ℤ → ℕ
  pub falls : FallsToRoot rank nodes

pub record IsWellFormed (m : WorkspaceMirror) : Type 0 where
  pub tree : IsTree m.nodes
  pub fresh : FreshBelow m.next_temp_id m.nodes
  pub listed : ListsKnown m.children_by_parent m.nodes
  pub indexed : PathsKnown m.path_to_id m.nodes

pub id_of_get :
    (k : ℤ) (nodes : Dict ℤ Node) {n : Node} → IdsMatch nodes → get k nodes ≡ some n → n.id ≡ k
unfolding get
id_of_get k [] h e = ground arith
id_of_get k ((j, w) ∷ nodes) {n} h e =
    ground (arith, int_eq.beq_iff j k, h.0, id_of_get k nodes {n = n} h.1)

pub put-IdsMatch : (n : Node) (nodes : Dict ℤ Node) → IdsMatch nodes → IdsMatch (put n.id n nodes)
unfolding put
put-IdsMatch n [] h = (refl, tt)
put-IdsMatch n ((j, w) ∷ nodes) h = elim (Bool-cases (j == n.id)) [
  | inl same ↦ rw same (ground (arith, int_eq.beq_iff j n.id), h.1)
  | inr other ↦ rw other (h.0, put-IdsMatch n nodes h.1)
]

pub remove-IdsMatch : (k : ℤ) (nodes : Dict ℤ Node) → IdsMatch nodes → IdsMatch (remove k nodes)
unfolding remove
remove-IdsMatch k [] h = tt
remove-IdsMatch k ((j, w) ∷ nodes) h = elim (Bool-cases (j == k)) [
  | inl same ↦ rw same (remove-IdsMatch k nodes h.1)
  | inr other ↦ rw other (h.0, remove-IdsMatch k nodes h.1)
]
