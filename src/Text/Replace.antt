-- ===== src/Text/Replace.antt =====
-- What `s.replace(part, by, 1)` of `exec_edit` in `runtime/editing.py` does to a text.
use iruka_virtual_file_syste.Prelude.{
  ℕ, zero, suc, Bool, true, ◌&&◌, List, [], ◌∷◌, ◌++◌, drop, length, nat_eq, ◌≡◌, refl, ap, ◌∙◌,
  inl, inr, arith, Bool-cases, beq_refl, append-nil, not,
}
use iruka_virtual_file_syste.Text.Search.{is_prefix, occurs_in, replace_first}

prefix_drop : (part s : List ℕ) → is_prefix part s ≡ true → s ≡ part ++ drop (length part) s
unfolding is_prefix
prefix_drop [] s h = refl
prefix_drop (p ∷ ps) [] h = cc
prefix_drop (p ∷ ps) (c ∷ s) h =
    let same : c ≡ p = (nat_eq.beq_iff c p).0 (ground arith) in
    let rest : s ≡ ps ++ drop (length ps) s = prefix_drop ps s (ground arith) in
    ap (λ d. d ∷ s) same ∙ ap (λ t. p ∷ t) rest

is_prefix-append : (part s : List ℕ) → is_prefix part (part ++ s) ≡ true
unfolding is_prefix
is_prefix-append [] s = refl
is_prefix-append (p ∷ ps) s = rw (beq_refl p) (is_prefix-append ps s)

drop_nil : (n : ℕ) → drop {A = ℕ} n [] ≡ []
drop_nil zero = refl
drop_nil (suc n) = refl

-- The part does not begin at any of the first so many places.
unfoldable pub no_match_before : List ℕ → ℕ → List ℕ → Bool
unfolding is_prefix
no_match_before part zero s = true
no_match_before part (suc n) s = not (is_prefix part s) && no_match_before part n (drop 1 s)

-- A text that has the part becomes what stands before its first place, the replacement, and what
-- stands after it.
pub replace_first_lem :
    (part by s : List ℕ)
    → occurs_in part s ≡ true
    → (before after : List ℕ) × (s ≡ before ++ (part ++ after))
      × (replace_first part by s ≡ before ++ (by ++ after))
      × (no_match_before part (length before) s ≡ true)
unfolding replace_first occurs_in no_match_before
replace_first_lem part by [] found = (
  [],
  drop (length part) [],
  prefix_drop part [] found,
  rw (found, drop_nil, append-nil) refl,
  refl,
)
replace_first_lem part by (c ∷ s) found = elim (Bool-cases (is_prefix part (c ∷ s))) [
  | inl here ↦ (
    [],
    drop (length part) (c ∷ s),
    prefix_drop part (c ∷ s) here,
    rw (replace_first, here) refl,
    refl,
  )
  | inr later ↦
      let (before, after, split, replaced, first) =
        replace_first_lem part by s (ground (arith, later)) in
      (
        c ∷ before,
        after,
        ap (λ t. c ∷ t) split,
        rw (replace_first, later) (ap (λ t. c ∷ t) replaced),
        rw (no_match_before, later) first,
      )
]
