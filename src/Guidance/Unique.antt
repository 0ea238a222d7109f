-- ===== src/Guidance/Unique.antt =====
-- `_unique_ordered` removes the empty and the repeated paths and nothing else.
use iruka_virtual_file_syste.Prelude.{
  ◌≡◌, inl, inr, not, ◌&&◌, ◌||◌, List, [], ◌∷◌, ◌++◌, contains, list_eq, nat_eq, arith, Bool-cases,
  contains-append, Distinct, append-Distinct, list_beq_iff,
}
use iruka_virtual_file_syste.Text.{Text}
use iruka_virtual_file_syste.Guidance.Lists.{unique_ordered, unique_from, is_empty}

unique_from-Distinct : (out paths : List Text) → Distinct out → Distinct (unique_from out paths)
unfolding unique_from
unique_from-Distinct out [] d = d
unique_from-Distinct out (p ∷ paths) d = elim (Bool-cases (is_empty p || contains p out)) [
  | inl skip ↦ rw skip (unique_from-Distinct out paths d)
  | inr fresh ↦
      rw fresh
        (unique_from-Distinct (out ++ (p ∷ [])) paths (append-Distinct out p d (ground arith)))
]

contains-unique_from :
    (q : Text) (out paths : List Text)
    → contains q (unique_from out paths)
      ≡ (contains q out || (not (is_empty q) && contains q paths))
unfolding unique_from contains
contains-unique_from q out [] = ground arith
contains-unique_from q out (p ∷ paths) = elim (Bool-cases (is_empty p || contains p out)) [
  | inl skip ↦ rw skip (rw (contains-unique_from q out paths) (ground (arith, list_beq_iff p q)))
  | inr fresh ↦ rw fresh (
      rw (contains-unique_from q (out ++ (p ∷ [])) paths, contains-append)
        (ground (arith, list_beq_iff p q)))
]

-- The result holds no path twice, and it holds a path exactly when that path is not empty and
-- the given list holds it.
pub unique_ordered_lem :
    (paths : List Text)
    → Distinct (unique_ordered paths)
      × ((q : Text) → contains q (unique_ordered paths) ≡ (not (is_empty q) && contains q paths))
unfolding unique_ordered contains
unique_ordered_lem paths = (unique_from-Distinct [] paths tt, λ q. contains-unique_from q [] paths)
