-- ===== src/Flush/Rounds.antt =====
-- A round of a flush writes a payload or puts it off, and what is put off gets shorter with each
-- payload that is written.
use iruka_virtual_file_syste.Prelude.{
  ℕ, zero, suc, ◌+◌, ◌≤◌, ◌≡◌, ◌⊎◌, refl, inl, inr, true, false, none, List, [], ◌∷◌, ◌++◌, ℤ, pos,
  negsuc, length, length-append, arith, Option-cases, if◌then◌else◌,
}
use iruka_virtual_file_syste.Text.{Text}
use iruka_virtual_file_syste.Model.{Node}
use iruka_virtual_file_syste.Repositories.{RepoState}
use iruka_virtual_file_syste.Flush.{Round, parent_for, write_payload, flush_payload, flush_round}

module _ (tenant_key : Text) (workspace_id : ℤ) where
  write_payload_made :
      (i : ℤ) (payload : Node) (r : Round)
      → ((write_payload tenant_key workspace_id i payload r).progress_made ≡ true)
        × ((write_payload tenant_key workspace_id i payload r).next_round ≡ r.next_round)
  unfolding write_payload
  write_payload_made (pos zero) payload r = (refl, refl)
  write_payload_made (pos (suc n)) payload r = (refl, refl)
  write_payload_made (negsuc n) payload r = (refl, refl)

  pub flush_payload-put_off :
      (p : Node) (r : Round)
      → parent_for r.remapped_ids p.parent_id ≡ none
      → flush_payload tenant_key workspace_id p r ≡ record r { next_round = r.next_round ++ p ∷ [] }
  unfolding flush_payload
  flush_payload-put_off p r e = rw (e, flush_payload) refl

  -- A payload is put off, or written.
  pub flush_payload-cases :
      (p : Node) (r : Round)
      → ((parent_for r.remapped_ids p.parent_id ≡ none)
          × (flush_payload tenant_key workspace_id p r
              ≡ record r { next_round = r.next_round ++ p ∷ [] }))
        ⊎ (((flush_payload tenant_key workspace_id p r).progress_made ≡ true)
            × ((flush_payload tenant_key workspace_id p r).next_round ≡ r.next_round))
  unfolding flush_payload
  flush_payload-cases p r = elim (Option-cases (parent_for r.remapped_ids p.parent_id)) [
    | inl off ↦ inl (off, flush_payload-put_off p r off)
    | inr (parent, found) ↦
        let p' = record p { parent_id = parent } in
        inr (
          rw (found, flush_payload) (write_payload_made p.id p' r).0,
          rw (found, flush_payload) (write_payload_made p.id p' r).1,
        )
  ]

  abbrev made : Round → ℕ
  made r = if r.progress_made then 1 else 0

  flush_payload-length :
      (p : Node) (r : Round)
      → length (flush_payload tenant_key workspace_id p r).next_round
          + made (flush_payload tenant_key workspace_id p r)
        ≤ length r.next_round + 1 + made r
  flush_payload-length p r = elim (flush_payload-cases p r) [
    | inl (_, off) ↦ rw off (omega (arith, length-append r.next_round (p ∷ [])))
    | inr (one, same) ↦ rw (one, same) (omega arith)
  ]

  pub flush_round-length :
      (ps : List Node) (r : Round)
      → length (flush_round tenant_key workspace_id ps r).next_round
          + made (flush_round tenant_key workspace_id ps r)
        ≤ length r.next_round + length ps + made r
  unfolding flush_round
  flush_round-length [] r = omega arith
  flush_round-length (p ∷ ps) r = omega (
    arith,
    flush_payload-length p r,
    flush_round-length ps (flush_payload tenant_key workspace_id p r),
  )

  abbrev pub start : List (ℤ × ℤ) → RepoState → Round
  start ids repo = record {
    remapped_ids = ids;
    next_round = [];
    progress_made = false;
    repo = repo;
  }
