-- ===== src/Repositories/Nodes.antt =====
-- The nodes of the in-memory repository.
use iruka_virtual_file_syste.Prelude.{
  ℕ, suc, ◌≡◌, ◌∙◌, refl, sym, ap, inl, inr, Bool, true, false, Option, none, some, ℤ, pos, negsuc,
  int_leb, int_eq, nat_eq, list_eq, ◌==◌, if◌then◌else◌, arith, Bool-cases, Option-cases, beq_refl,
  list_beq_iff,
}
use iruka_virtual_file_syste.Text.{Text}
use iruka_virtual_file_syste.Dict.{Dict, get, put}
use iruka_virtual_file_syste.Dict.Laws.{get-put}
use iruka_virtual_file_syste.Model.{NodeType}
use iruka_virtual_file_syste.Repositories.{NodeRow, RepoState, create_node, get_node}

-- The ids from the counter on are free.
abbrev pub IsCounted : RepoState → Type 0
IsCounted st =
    (k : ℤ) (row : NodeRow) → get k st.nodes ≡ some row → int_leb (pos st.next_node_id) k ≡ false

get-free : (st : RepoState) → IsCounted st → get (pos st.next_node_id) st.nodes ≡ none
get-free st h = elim (Option-cases (get (pos st.next_node_id) st.nodes)) [
  | inl gone ↦ gone
  | inr (row, found) ↦ absurd (ground (arith, h (pos st.next_node_id) row found))
]

int_leb-suc : (n : ℕ) (k : ℤ) → int_leb (pos n) k ≡ false → int_leb (pos (suc n)) k ≡ false
int_leb-suc n (pos k) h = ground arith
int_leb-suc n (negsuc k) h = refl

get_node_found :
    (k : ℤ) (t : Text) (row : NodeRow) (b : Bool) (st : RepoState)
    → get k st.nodes ≡ some row
    → (row.tenant_id == t) ≡ b
    → get_node k t st ≡ (if b then some row else none)
unfolding get_node
get_node_found k t row b st e same = rw (e, get_node) (rw same refl)

get_node_same :
    (k : ℤ) (t : Text) (st st' : RepoState)
    → get k st'.nodes ≡ get k st.nodes
    → get_node k t st' ≡ get_node k t st
unfolding get_node
get_node_same k t st st' e = rw (e, get_node) refl

get_node_gone : (k : ℤ) (t : Text) (st : RepoState) → get k st.nodes ≡ none → get_node k t st ≡ none
unfolding get_node
get_node_gone k t st e = rw (e, get_node) refl

get-put_other :
    (k i : ℤ) (row : NodeRow) (nodes : Dict ℤ NodeRow)
    → (i == k) ≡ false
    → get k (put i row nodes) ≡ get k nodes
get-put_other k i row nodes other = rw get-put (ground (arith, other))

get-put_at : (i : ℤ) (row : NodeRow) (nodes : Dict ℤ NodeRow) → get i (put i row nodes) ≡ some row
get-put_at i row nodes = rw get-put (ground (arith, beq_refl i))

-- The counter stays above all ids.
put-IsCounted :
    (row : NodeRow) (st : RepoState)
    → IsCounted st
    → (k : ℤ) (old : NodeRow) → get k (put (pos st.next_node_id) row st.nodes) ≡ some old
    → int_leb (pos (suc st.next_node_id)) k ≡ false
put-IsCounted row st h k old e = elim (Bool-cases (pos st.next_node_id == k)) [
  | inl same ↦
      ap (int_leb (pos (suc st.next_node_id)))
        (sym ((int_eq.beq_iff (pos st.next_node_id) k).0 same))
      ∙ suc_above st.next_node_id
  | inr other ↦
      int_leb-suc st.next_node_id k
        (h k old (sym (get-put_other k (pos st.next_node_id) row st.nodes other) ∙ e))
]
  where
    suc_above : (n : ℕ) → int_leb (pos (suc n)) (pos n) ≡ false
    suc_above n = ground arith

-- A new node of a repository whose counter is above all ids is found under its id by its own
-- tenant and by no other, every other id leads to what it led to before, and the counter is above
-- all ids again.
pub create_node_lem :
    (tenant other name content : Text) (workspace_id : ℤ) (parent_id : Option ℤ) (kind : NodeType)
    (version : ℕ) (st : RepoState)
    → IsCounted st
    → (row : NodeRow) × (st' : RepoState) × (create_node tenant workspace_id parent_id name kind
          content version st
        ≡ (row, st'))
      × (get_node row.node.id tenant st' ≡ some row)
      × ((other == tenant) ≡ false → get_node row.node.id other st' ≡ none)
      × ((k : ℤ) (old : NodeRow) → get_node k other st ≡ some old → get_node k other st' ≡ some old)
      × IsCounted st'
unfolding create_node
create_node_lem tenant other name content workspace_id parent_id kind version st h =
    let row : NodeRow = record {
      tenant_id = tenant;
      workspace_id = workspace_id;
      node = record {
        id = pos st.next_node_id;
        parent_id = parent_id;
        name = name;
        node_type = kind;
        content_text = content;
        version_no = version;
      };
    } in
    let i = pos st.next_node_id in
    let st' : RepoState = record st {
      next_node_id = suc st.next_node_id;
      nodes = put i row st.nodes;
    } in
    let at = get-put_at i row st.nodes in
    (
      row,
      st',
      refl,
      get_node_found i tenant row true st' at (beq_refl tenant),
      λ foreign.
          get_node_found i other row false st' at
            (ground (arith, foreign, list_beq_iff tenant other, list_beq_iff other tenant)),
      λ k old e. elim (Bool-cases (i == k)) [
        | inl same ↦ absurd (
            ground (
              arith,
              e,
              get_node_gone k other st
                  (ap (λ j. get j st.nodes) (sym ((int_eq.beq_iff i k).0 same)) ∙ get-free st h),
            ))
        | inr away ↦ get_node_same k other st st' (get-put_other k i row st.nodes away) ∙ e
      ],
      put-IsCounted row st h,
    )
