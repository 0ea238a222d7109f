-- ===== src/Flush/Kept.antt =====
-- What the rounds of a flush keep: the real ids that are known, and the payloads that wait.
use mathlib.Core.Path.{subst}
use iruka_virtual_file_syste.Prelude.{
  ℕ, zero, suc, ◌≡◌, ◌⊎◌, refl, sym, inl, inr, true, none, List, [], ◌∷◌, ◌++◌, ℤ, pos, negsuc,
  arith, Option-cases, is_some, int_eq,
}
use iruka_virtual_file_syste.Text.{Text}
use iruka_virtual_file_syste.Dict.{get}
use iruka_virtual_file_syste.Model.{Node}
use iruka_virtual_file_syste.Repositories.{create_node}
use iruka_virtual_file_syste.Flush.{Round, parent_for, write_payload, flush_payload, flush_round}
use iruka_virtual_file_syste.Flush.Rounds.{flush_payload-put_off, flush_payload-cases}

-- A payload of the list has the temporary id.
abbrev pub Has : ℕ → List Node → Type 0
Has n [] = ⊥
Has n (q ∷ qs) = (q.id ≡ negsuc n) ⊎ Has n qs

abbrev pub All {ℓ} : (Node → Type ℓ) → List Node → Type ℓ
All P [] = Unit
All P (p ∷ ps) = P p × All P ps

abbrev pub Known : ℕ → List (ℤ × ℤ) → Type 0
Known n ids = is_some (get (negsuc n) ids) ≡ true

Known-append : (n : ℕ) (ids more : List (ℤ × ℤ)) → Known n ids → Known n (ids ++ more)
unfolding get
Known-append n [] more h = cc
Known-append n ((i, v) ∷ ids) more h = ground (arith, h, Known-append n ids more)

Known-last : (n : ℕ) (v : ℤ) (ids : List (ℤ × ℤ)) → Known n (ids ++ (negsuc n, v) ∷ [])
unfolding get
Known-last n v [] = ground arith
Known-last n v ((i, w) ∷ ids) = ground (arith, Known-last n v ids)

Has-append : (n : ℕ) (ps qs : List Node) → Has n ps → Has n (ps ++ qs)
Has-append n [] qs h = absurd h
Has-append n (p ∷ ps) qs (inl e) = inl e
Has-append n (p ∷ ps) qs (inr h) = inr (Has-append n ps qs h)

Has-last : (n : ℕ) (q : Node) (ps : List Node) → q.id ≡ negsuc n → Has n (ps ++ q ∷ [])
Has-last n q [] e = inl e
Has-last n q (p ∷ ps) e = inr (Has-last n q ps e)

All-append : (P : Node → Type 0) (ps : List Node) (q : Node) → All P ps → P q → All P (ps ++ q ∷ [])
All-append P [] q h hq = (hq, tt)
All-append P (p ∷ ps) q h hq = (h.0, All-append P ps q h.1 hq)

pub All-map :
    (P Q : Node → Type 0) (ps : List Node) → ((p : Node) → P p → Q p) → All P ps → All Q ps
All-map P Q [] f h = tt
All-map P Q (p ∷ ps) f h = (f p h.0, All-map P Q ps f h.1)

module _ (t : Text) (w : ℤ) where
  -- What writing a payload keeps and adds.
  write_payload-Known :
      (i : ℤ) (p : Node) (r : Round)
      → ((write_payload t w i p r).next_round ≡ r.next_round)
        × ((n : ℕ) → Known n r.remapped_ids → Known n (write_payload t w i p r).remapped_ids)
        × ((n : ℕ) → i ≡ negsuc n → Known n (write_payload t w i p r).remapped_ids)
  unfolding write_payload
  write_payload-Known (pos (suc k)) p r = (refl, λ n h. h, λ n e. cc)
  write_payload-Known (pos zero) p r = (refl, λ n h. Known-append n r.remapped_ids _ h, λ n e. cc)
  write_payload-Known (negsuc k) p r = (
    refl,
    λ n h. Known-append n r.remapped_ids _ h,
    λ n e.
        let (row, _) =
          create_node t w p.parent_id p.name p.node_type p.content_text p.version_no r.repo in
        subst (λ j. Known n (r.remapped_ids ++ (j, row.node.id) ∷ [])) (sym e)
          (Known-last n row.node.id r.remapped_ids),
  )

  -- A payload is put off, or dropped with its temporary id known.
  pub record Kept (ps : List Node) (r r' : Round) : Type 1 where
    pub known : (n : ℕ) → Known n r.remapped_ids → Known n r'.remapped_ids
    pub later : (n : ℕ) → Has n r.next_round → Has n r'.next_round
    pub every : (n : ℕ) → Has n ps → Has n r'.next_round ⊎ Known n r'.remapped_ids
    pub from : (P : Node → Type 0) → All P r.next_round → All P ps → All P r'.next_round

  flush_payload-Kept : (p : Node) (r : Round) → Kept (p ∷ []) r (flush_payload t w p r)
  unfolding flush_payload
  flush_payload-Kept p r = elim (Option-cases (parent_for r.remapped_ids p.parent_id)) [
    | inl off ↦ rw (flush_payload-put_off t w p r off) (record {
      known = λ n h. h;
      later = λ n h. Has-append n r.next_round (p ∷ []) h;
      every = λ n h. elim h [
        | inl e ↦ inl (Has-last n p r.next_round e)
        | inr none_left ↦ absurd none_left
      ];
      from = λ P hs h. All-append P r.next_round p hs h.0;
    })
    | inr (parent, found) ↦
        let facts = write_payload-Known p.id (record p { parent_id = parent }) r in
        rw (flush_payload, found)
          (record {
            known = facts.1;
            later = λ n h. subst (Has n) (sym facts.0) h;
            every = λ n h. elim h [ inl e ↦ inr (facts.2 n e) | inr none_left ↦ absurd none_left ];
            from = λ P hs h. subst (All P) (sym facts.0) hs;
          })
  ]

  pub flush_round-Kept : (ps : List Node) (r : Round) → Kept ps r (flush_round t w ps r)
  unfolding flush_round
  flush_round-Kept [] r = record {
    known = λ n h. h;
    later = λ n h. h;
    every = λ n h. absurd h;
    from = λ P hs h. hs;
  }
  flush_round-Kept (p ∷ ps) r =
      let first = flush_payload-Kept p r in
      let rest = flush_round-Kept ps (flush_payload t w p r) in
      record {
        known = λ n h. rest.known n (first.known n h);
        later = λ n h. rest.later n (first.later n h);
        every = λ n h. elim h [
          | inl e ↦ elim (first.every n (inl e)) [
            | inl put_off ↦ inl (rest.later n put_off)
            | inr found ↦ inr (rest.known n found)
          ]
          | inr there ↦ rest.every n there
        ];
        from = λ P hs h. rest.from P (first.from P hs (h.0, tt)) h.1;
      }

  progress_stays :
      (ps : List Node) (r : Round)
      → r.progress_made ≡ true
      → (flush_round t w ps r).progress_made ≡ true
  unfolding flush_round
  progress_stays [] r h = h
  progress_stays (p ∷ ps) r h = elim (flush_payload-cases t w p r) [
    | inl (_, off) ↦ progress_stays ps (flush_payload t w p r) (rw off h)
    | inr (one, _) ↦ progress_stays ps (flush_payload t w p r) one
  ]

  -- A round writes a payload, or no parent can be resolved.
  pub flush_round-progress :
      (ps : List Node) (r : Round)
      → ((flush_round t w ps r).progress_made ≡ true)
        ⊎ All (λ p. parent_for r.remapped_ids p.parent_id ≡ none) ps
  unfolding flush_round
  flush_round-progress [] r = inr tt
  flush_round-progress (p ∷ ps) r = elim (flush_payload-cases t w p r) [
    | inr (one, _) ↦ inl (progress_stays ps (flush_payload t w p r) one)
    | inl (stuck, off) ↦ elim (flush_round-progress ps (flush_payload t w p r)) [
      | inl one ↦ inl one
      | inr all_stuck ↦ inr (
        stuck,
        subst (λ (u : Round). All (λ q. parent_for u.remapped_ids q.parent_id ≡ none) ps) off
            all_stuck,
      )
    ]
  ]
