-- ===== src/Flush/Ends.antt =====
-- How the rounds of a flush end: with the rows of the new nodes, or with payloads that no round can
-- write.
use mathlib.Core.Path.{subst}
use iruka_virtual_file_syste.Prelude.{
  ℕ, zero, suc, ◌≤◌, ◌<◌, ◌≡◌, ◌⊎◌, refl, sym, ap, ◌∙◌, inl, inr, true, false, Option, none, some,
  List, [], ◌∷◌, ◌++◌, ℤ, pos, negsuc, length, arith, Bool-cases, Option-cases, is_some, int_eq,
  list_eq, nat_eq, ◌==◌, beq_refl, get_or,
}
use iruka_virtual_file_syste.Text.{Text, text}
use iruka_virtual_file_syste.Dict.{get, put}
use iruka_virtual_file_syste.Dict.Laws.{get-put}
use iruka_virtual_file_syste.Result.{ok, raise, value_error}
use iruka_virtual_file_syste.Model.{Node}
use iruka_virtual_file_syste.Repositories.{
  NodeRow, RepoState, create_node, get_node, update_node_content,
}
use iruka_virtual_file_syste.Flush.{
  Round, parent_for, write_payload, flush_payload, flush_round, flush_rounds,
}
use iruka_virtual_file_syste.Flush.Kept.{Has, All, Known, flush_round-Kept, flush_round-progress}
use iruka_virtual_file_syste.Flush.Rounds.{flush_payload-put_off, flush_round-length, start}

-- Every real id that is recorded for a temporary one is the id of a row of the tenant.
abbrev pub Recorded : Text → List (ℤ × ℤ) → RepoState → Type 0
Recorded t ids repo =
    (n : ℕ) (v : ℤ) → get (negsuc n) ids ≡ some v → is_some (get_node v t repo) ≡ true

-- What no round can write: the parents of the payloads are temporary, without a real id.
abbrev pub Stuck : List (ℤ × ℤ) → List Node → Type 0
Stuck ids = All (λ p. parent_for ids p.parent_id ≡ none)

own_row :
    (t : Text) (v : ℤ) (row : NodeRow) (st : RepoState)
    → get v st.nodes ≡ some row
    → (row.tenant_id == t) ≡ true
    → is_some (get_node v t st) ≡ true
unfolding get_node
own_row t v row st found own = rw (get_node, found) (rw own refl)

own_row_of :
    (t : Text) (v : ℤ) (st : RepoState)
    → is_some (get_node v t st) ≡ true
    → (row : NodeRow) × (get v st.nodes ≡ some row) × ((row.tenant_id == t) ≡ true)
unfolding get_node
own_row_of t v st h = elim (Option-cases (get v st.nodes)) [
  | inl gone ↦ absurd (ground (arith, gone, h))
  | inr (row, found) ↦ (row, found, ground (arith, found, h))
]

-- A row of the tenant that is put into the table takes no row from the tenant.
put-own_row :
    (t : Text) (k v : ℤ) (row : NodeRow) (st st' : RepoState)
    → st'.nodes ≡ put k row st.nodes
    → (row.tenant_id == t) ≡ true
    → is_some (get_node v t st) ≡ true
    → is_some (get_node v t st') ≡ true
put-own_row t k v row st st' nodes own h = elim (Bool-cases (k == v)) [
  | inl same ↦ own_row t v row st' (ap (get v) nodes ∙ rw get-put (ground (arith, same))) own
  | inr other ↦
      let (old, found, tenant) = own_row_of t v st h in
      own_row t v old st' (ap (get v) nodes ∙ rw get-put (ground (arith, other, found))) tenant
]

tenant_of_row :
    (k : ℤ) (t : Text) (row : NodeRow) (st : RepoState)
    → get_node k t st ≡ some row
    → (row.tenant_id == t) ≡ true
unfolding get_node
tenant_of_row k t row st e = elim (Option-cases (get k st.nodes)) [
  | inl gone ↦ absurd (ground (arith, gone, e))
  | inr (there, found) ↦ elim (Bool-cases (there.tenant_id == t)) [
    | inl own ↦
        let same : some there ≡ some row = sym (rw (get_node, found) (rw own refl)) ∙ e in
        sym (ap (λ (o : Option NodeRow). (get_or o there).tenant_id == t) same) ∙ own
    | inr foreign ↦ absurd (ground (arith, found, foreign, e))
  ]
]

-- The new row is one of the tenant, and no row of the tenant is lost.
create_node-own_row :
    (t : Text) (w v : ℤ) (p : Node) (st : RepoState)
    → let made = create_node t w p.parent_id p.name p.node_type p.content_text p.version_no st in
      (is_some (get_node made.0.node.id t made.1) ≡ true)
      × (is_some (get_node v t st) ≡ true → is_some (get_node v t made.1) ≡ true)
unfolding create_node
create_node-own_row t w v p st =
    let row : NodeRow = record {
      tenant_id = t;
      workspace_id = w;
      node = record p { id = pos st.next_node_id };
    } in
    (
      own_row t (pos st.next_node_id) row _
          (rw get-put (ground (arith, beq_refl (pos st.next_node_id)))) (beq_refl t),
      put-own_row t (pos st.next_node_id) v row st _ refl (beq_refl t),
    )

update_node_content-own_row :
    (t : Text) (k v : ℤ) (p : Node) (st : RepoState)
    → is_some (get_node v t st) ≡ true
    → is_some (
        get_node v t
          (update_node_content k t p.parent_id p.name p.node_type p.content_text p.version_no st))
      ≡ true
unfolding update_node_content
update_node_content-own_row t k v p st h = elim (Option-cases (get_node k t st)) [
  | inl gone ↦ rw (update_node_content, gone) h
  | inr (row, found) ↦
      rw (update_node_content, found)
        (put-own_row t k v
          (record row {
            node = record row.node {
              parent_id = p.parent_id;
              name = p.name;
              node_type = p.node_type;
              content_text = p.content_text;
              version_no = p.version_no;
            };
          })
          st _ refl (tenant_of_row k t row st found) h)
]

get-last :
    (n : ℕ) (j v u : ℤ) (ids : List (ℤ × ℤ))
    → get (negsuc n) (ids ++ (j, u) ∷ []) ≡ some v
    → (get (negsuc n) ids ≡ some v) ⊎ (u ≡ v)
unfolding get
get-last n j v u [] e = ground (arith, e)
get-last n j v u ((i, w) ∷ ids) e = ground (arith, e, get-last n j v u ids)

module _ (t : Text) (w : ℤ) where
  create_node-Recorded :
      (j : ℤ) (p : Node) (ids : List (ℤ × ℤ)) (st : RepoState)
      → Recorded t ids st
      → let made = create_node t w p.parent_id p.name p.node_type p.content_text p.version_no st in
        Recorded t (ids ++ (j, made.0.node.id) ∷ []) made.1
  create_node-Recorded j p ids st h = λ n v e.
      let made = create_node t w p.parent_id p.name p.node_type p.content_text p.version_no st in
      elim (get-last n j v made.0.node.id ids e) [
        | inl old ↦ (create_node-own_row t w v p st).1 (h n v old)
        | inr new ↦
            subst (λ u. is_some (get_node u t made.1) ≡ true) new (create_node-own_row t w v p st).0
      ]

  write_payload-Recorded :
      (i : ℤ) (p : Node) (r : Round)
      → Recorded t r.remapped_ids r.repo
      → Recorded t (write_payload t w i p r).remapped_ids (write_payload t w i p r).repo
  unfolding write_payload
  write_payload-Recorded (pos (suc k)) p r h =
      λ n v e. update_node_content-own_row t (pos (suc k)) v p r.repo (h n v e)
  write_payload-Recorded (pos zero) p r h =
      create_node-Recorded (pos zero) p r.remapped_ids r.repo h
  write_payload-Recorded (negsuc k) p r h =
      create_node-Recorded (negsuc k) p r.remapped_ids r.repo h

  flush_payload-Recorded :
      (p : Node) (r : Round)
      → Recorded t r.remapped_ids r.repo
      → Recorded t (flush_payload t w p r).remapped_ids (flush_payload t w p r).repo
  unfolding flush_payload
  flush_payload-Recorded p r h = elim (Option-cases (parent_for r.remapped_ids p.parent_id)) [
    | inl off ↦ rw (flush_payload-put_off t w p r off) h
    | inr (parent, found) ↦
        rw (flush_payload, found)
          (write_payload-Recorded p.id (record p { parent_id = parent }) r h)
  ]

  flush_round-Recorded :
      (ps : List Node) (r : Round)
      → Recorded t r.remapped_ids r.repo
      → Recorded t (flush_round t w ps r).remapped_ids (flush_round t w ps r).repo
  unfolding flush_round
  flush_round-Recorded [] r h = h
  flush_round-Recorded (p ∷ ps) r h =
      flush_round-Recorded ps (flush_payload t w p r) (flush_payload-Recorded p r h)

  flush_round-Stuck :
      (ps : List Node) (r : Round) → Stuck r.remapped_ids ps → (flush_round t w ps r).repo ≡ r.repo
  unfolding flush_round
  flush_round-Stuck [] r h = refl
  flush_round-Stuck (p ∷ ps) r h =
      rw (flush_round, flush_payload-put_off t w p r h.0)
        (flush_round-Stuck ps (record r { next_round = r.next_round ++ p ∷ [] }) h.1)

  -- The round in which nothing can be written is the last one.
  no_progress_end :
      (fuel : ℕ) (p : Node) (pending : List Node) (ids : List (ℤ × ℤ)) (repo : RepoState)
      → (flush_round t w (p ∷ pending) (start t w ids repo)).progress_made ≡ false
      → Stuck ids (p ∷ pending)
      → flush_rounds t w (suc fuel) (p ∷ pending) ids repo
        ≡ (raise (value_error (text "flush could not remap temporary parent ids")), repo)
  unfolding flush_rounds
  no_progress_end fuel p pending ids repo no_progress stuck = rw no_progress (
      ap
        (λ (st : RepoState).
          (raise (value_error (text "flush could not remap temporary parent ids")), st))
        (flush_round-Stuck (p ∷ pending) (start t w ids repo) stuck))

  -- With fuel for every payload the rounds end in one of two ways. Either they succeed, and then
  -- every new node of the batch has a real id; or they end with the error that a temporary parent
  -- has no real id, and then some payloads of the batch are left, every other new node of the batch
  -- has a real id, and the parent of each payload that is left is temporary and has none. In both
  -- cases the ids known before stay known, and the real ids are those of rows of the tenant in the
  -- repository. The condition is that the ids known before are those of rows of the tenant.
  pub flush_rounds_lem :
      (fuel : ℕ) (pending : List Node) (ids : List (ℤ × ℤ)) (repo : RepoState)
      → length pending ≤ fuel
      → Recorded t ids repo
      → (ids' : List (ℤ × ℤ)) × (repo' : RepoState) × ((n : ℕ) → Known n ids → Known n ids')
        × Recorded t ids' repo'
        × (((flush_rounds t w fuel pending ids repo ≡ (ok ids', repo'))
              × ((n : ℕ) → Has n pending → Known n ids'))
            ⊎ ((left : List Node) × (flush_rounds t w fuel pending ids repo ≡ (
              raise (value_error (text "flush could not remap temporary parent ids")),
              repo',
            ))
                × (0 < length left)
                × ((P : Node → Type 0) → All P pending → All P left)
                × Stuck ids' left
                × ((n : ℕ) → Has n pending → Has n left ⊎ Known n ids')))
  unfolding flush_rounds
  flush_rounds_lem fuel [] ids repo h rows =
      (ids, repo, λ n k. k, rows, inl (refl, λ n has. absurd has))
  flush_rounds_lem zero (p ∷ pending) ids repo h rows = absurd (omega arith)
  flush_rounds_lem (suc fuel) (p ∷ pending) ids repo h rows =
      let r = flush_round t w (p ∷ pending) (start t w ids repo) in
      let kept = flush_round-Kept t w (p ∷ pending) (start t w ids repo) in
      let rows' = flush_round-Recorded (p ∷ pending) (start t w ids repo) rows in
      elim (Bool-cases r.progress_made) [
        | inl one ↦
            let shorter = flush_round-length t w (p ∷ pending) (start t w ids repo) in
            let (ids', repo', known, rows'', end) =
              flush_rounds_lem fuel r.next_round r.remapped_ids r.repo
                (ground (arith, h, shorter, one)) rows' in
            (
              ids',
              repo',
              λ n k. known n (kept.known n k),
              rows'',
              elim end [
                | inl (e, every) ↦ inl (
                  rw one e,
                  λ n has. elim (kept.every n has) [
                    | inl later ↦ every n later
                    | inr k ↦ known n k
                  ],
                )
                | inr (left, e, some_left, part, stuck, every) ↦ inr (
                  left,
                  rw one e,
                  some_left,
                  λ P hs. part P (kept.from P tt hs),
                  stuck,
                  λ n has. elim (kept.every n has) [
                    | inl later ↦ every n later
                    | inr k ↦ inr (known n k)
                  ],
                )
              ],
            )
        | inr no_progress ↦ elim (flush_round-progress t w (p ∷ pending) (start t w ids repo)) [
          | inl one ↦ absurd (ground (arith, one, no_progress))
          | inr stuck ↦ (
            ids,
            repo,
            λ n k. k,
            rows,
            inr (
              p ∷ pending,
              no_progress_end fuel p pending ids repo no_progress stuck,
              omega arith,
              λ P hs. hs,
              stuck,
              λ n has. inl has,
            ),
          )
        ]
      ]
