-- ===== src/Flush/Ordered.antt =====
-- A batch with the new parents of its nodes is flushed.
use mathlib.Core.Path.{subst}
use iruka_virtual_file_syste.Prelude.{
  ℕ, zero, suc, ◌+◌, ◌≤◌, ◌<◌, ◌≡◌, ◌≢◌, ◌⊎◌, refl, sym, ap, ◌∙◌, inl, inr, false, Option, none,
  some, List, [], ◌∷◌, ℤ, pos, negsuc, length, arith, Option-cases, is_some, int_eq,
}
use iruka_virtual_file_syste.Text.{Text}
use iruka_virtual_file_syste.Dict.{get}
use iruka_virtual_file_syste.Result.{ok}
use iruka_virtual_file_syste.Model.{Node}
use iruka_virtual_file_syste.Repositories.{RepoState}
use iruka_virtual_file_syste.Flush.{Round, parent_for, flush_round, flush_rounds}
use iruka_virtual_file_syste.Flush.Kept.{
  Has, All, Known, All-map, Kept, flush_round-Kept, flush_round-progress,
}
use iruka_virtual_file_syste.Flush.Rounds.{flush_round-length}

-- A payload can be written at once, or its parent is a new node of the list that was made before it.
abbrev pub Waits : List (ℤ × ℤ) → List Node → Node → Type 0
Waits ids all p =
    (parent_for ids p.parent_id ≢ none)
    ⊎ ((n : ℕ) × (k : ℕ) × (p.parent_id ≡ some (negsuc n))
        × (p.id ≡ negsuc k)
        × (n < k)
        × Has n all)

parent_for-Known :
    (n : ℕ) (ids : List (ℤ × ℤ)) → Known n ids → parent_for ids (some (negsuc n)) ≢ none
unfolding parent_for
parent_for-Known n ids h e = elim (Option-cases (get (negsuc n) ids)) [
  | inl gone ↦ cc (sym h ∙ ap is_some gone)
  | inr (v, found) ↦
      let resolved : parent_for ids (some (negsuc n)) ≡ some (some v) =
        rw (parent_for, found) refl in
      cc (sym e ∙ resolved)
]

Known-parent : (n : ℕ) (ids : List (ℤ × ℤ)) → parent_for ids (some (negsuc n)) ≢ none → Known n ids
unfolding parent_for
Known-parent n ids h = elim (Option-cases (get (negsuc n) ids)) [
  | inl gone ↦ absurd (h (rw (parent_for, gone) refl))
  | inr (v, found) ↦ rw found refl
]

parent_for_later :
    (ids ids' : List (ℤ × ℤ)) (parent : Option ℤ)
    → ((n : ℕ) → Known n ids → Known n ids')
    → parent_for ids parent ≢ none
    → parent_for ids' parent ≢ none
unfolding parent_for
parent_for_later ids ids' none more h = λ e. cc e
parent_for_later ids ids' (some (pos k)) more h = λ e. cc e
parent_for_later ids ids' (some (negsuc n)) more h =
    parent_for-Known n ids' (more n (Known-parent n ids h))

find_payload :
    (P : Node → Type 0) (k : ℕ) (ps : List Node)
    → Has k ps
    → All P ps
    → (q : Node) × (q.id ≡ negsuc k) × P q
find_payload P k [] h hs = absurd h
find_payload P k (p ∷ ps) (inl e) hs = (p, e, hs.0)
find_payload P k (p ∷ ps) (inr h) hs = find_payload P k ps h hs.1

All-both : (P Q : Node → Type 0) (qs : List Node) → All P qs → All Q qs → All (λ q. P q × Q q) qs
All-both P Q [] hp hq = tt
All-both P Q (q ∷ qs) hp hq = ((hp.0, hq.0), All-both P Q qs hp.1 hq.1)

-- Stuck payloads would wait on each other without end.
no_cycle :
    (fuel k : ℕ) (ids : List (ℤ × ℤ)) (ps : List Node)
    → k < fuel
    → Has k ps
    → All (Waits ids ps) ps
    → All (λ p. parent_for ids p.parent_id ≡ none) ps
    → ⊥
no_cycle zero k ids ps h has waits stuck = elim h [ ]
no_cycle (suc fuel) k ids ps h has waits stuck =
    let (q, at, (wait, none_found)) =
      find_payload (λ p. Waits ids ps p × (parent_for ids p.parent_id ≡ none)) k ps has
        (All-both (Waits ids ps) (λ p. parent_for ids p.parent_id ≡ none) ps waits stuck) in
    elim wait [
      | inl found ↦ found none_found
      | inr (n, k', _, at', before, has') ↦
          no_cycle fuel n ids ps (ground (arith, at, at', before, h)) has' waits stuck
    ]

module _ (t : Text) (w : ℤ) where
  Waits-Kept :
      (ps : List Node) (r r' : Round) (q : Node)
      → Kept t w ps r r'
      → Waits r.remapped_ids ps q
      → Waits r'.remapped_ids r'.next_round q
  Waits-Kept ps r r' q kept (inl found) =
      inl (parent_for_later r.remapped_ids r'.remapped_ids q.parent_id kept.known found)
  Waits-Kept ps r r' q kept (inr (n, k, parent, at, before, has)) = elim (kept.every n has) [
    | inl later ↦ inr (n, k, parent, at, before, later)
    | inr known ↦ inl (
        subst (λ o. parent_for r'.remapped_ids o ≢ none) (sym parent)
          (parent_for-Known n r'.remapped_ids known))
  ]

  -- With fuel for every payload, a batch in which the parent of each payload is real or known, or
  -- is a new node of the batch with a greater temporary id, is written without an error.
  pub flush_rounds_ordered :
      (fuel : ℕ) (pending : List Node) (ids : List (ℤ × ℤ)) (repo : RepoState)
      → length pending ≤ fuel
      → All (Waits ids pending) pending
      → (ids' : List (ℤ × ℤ)) × ((flush_rounds t w fuel pending ids repo).0 ≡ ok ids')
  unfolding flush_rounds
  flush_rounds_ordered fuel [] ids repo h waits = (ids, refl)
  flush_rounds_ordered zero (p ∷ pending) ids repo h waits = absurd (omega arith)
  flush_rounds_ordered (suc fuel) (p ∷ pending) ids repo h waits =
      let start : Round = record {
        remapped_ids = ids;
        next_round = [];
        progress_made = false;
        repo = repo;
      } in
      let r = flush_round t w (p ∷ pending) start in
      let kept = flush_round-Kept t w (p ∷ pending) start in
      elim (flush_round-progress t w (p ∷ pending) start) [
        | inl one ↦
            let shorter = flush_round-length t w (p ∷ pending) start in
            rw one (
              flush_rounds_ordered fuel r.next_round r.remapped_ids r.repo
                (ground (arith, h, shorter, one))
                (kept.from (Waits r.remapped_ids r.next_round) tt (
                  All-map (Waits ids (p ∷ pending)) (Waits r.remapped_ids r.next_round)
                    (p ∷ pending) (λ q. Waits-Kept (p ∷ pending) start r q kept) waits)))
        | inr stuck ↦ elim waits.0 [
          | inl found ↦ absurd (found stuck.0)
          | inr (n, k, _, _, _, has) ↦
              absurd (no_cycle (n + 1) n ids (p ∷ pending) (omega arith) has waits stuck)
        ]
      ]
