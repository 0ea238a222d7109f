-- ===== src/Runtime/Unseen.antt =====
-- The loop at the end of `_run_find_exec` of `runtime/search.py`, which drops repeated lines.
use iruka_virtual_file_syste.Prelude.{
  not, ◌&&◌, Bool, List, [], ◌∷◌, ◌++◌, keep, ◌≡◌, refl, sym, ap, ◌∙◌, inl, inr, contains,
  contains-append, contains-keep, append-nil, append_assoc, nat_eq, list_eq, ◌==◌, arith,
  Bool-cases, Distinct, list_beq_iff,
}
use iruka_virtual_file_syste.Text.{Text}
use iruka_virtual_file_syste.Runtime.Find.{add_unseen}

-- The items of a list in the order of their first time: the first item, then those of the rest
-- other than it.
abbrev pub first_times : List Text → List Text
first_times [] = []
first_times (x ∷ xs) = x ∷ keep (λ y. not (y == x)) (first_times xs)

keep-keep :
    (p q r : Text → Bool) (xs : List Text)
    → ((y : Text) → r y ≡ (p y && q y))
    → keep p (keep q xs) ≡ keep r xs
keep-keep p q r [] h = refl
keep-keep p q r (x ∷ xs) h = ground (arith, h x, keep-keep p q r xs h)

add_unseen-append :
    (seen xs : List Text)
    → add_unseen seen xs ≡ seen ++ keep (λ y. not (contains y seen)) (first_times xs)
unfolding add_unseen contains
add_unseen-append seen [] = sym (append-nil seen)
add_unseen-append seen (x ∷ xs) = elim (Bool-cases (contains x seen)) [
  | inl again ↦ rw again (
      add_unseen-append seen xs
      ∙ ap (λ ys. seen ++ ys)
          (sym (
            keep-keep (λ y. not (contains y seen)) (λ y. not (y == x)) (λ y. not (contains y seen))
              (first_times xs)
              (λ y.
                ground
                  (arith, again, list_beq_iff y x, ap (λ z. contains z seen) {x = y} {y = x})))))
  | inr new ↦ rw new (
      add_unseen-append (seen ++ x ∷ []) xs
      ∙ append_assoc seen (x ∷ []) _
      ∙ ap (λ ys. seen ++ x ∷ ys)
          (sym (
            keep-keep (λ y. not (contains y seen)) (λ y. not (y == x))
              (λ y. not (contains y (seen ++ x ∷ []))) (first_times xs)
              (λ y. rw contains-append (ground (arith, list_beq_iff y x, list_beq_iff x y))))))
]

keep-Distinct : (p : Text → Bool) (xs : List Text) → Distinct xs → Distinct (keep p xs)
unfolding contains
keep-Distinct p [] d = tt
keep-Distinct p (x ∷ xs) d = elim (Bool-cases (p x)) [
  | inl kept ↦ rw kept (ground (arith, d.0, contains-keep x p xs), keep-Distinct p xs d.1)
  | inr left ↦ rw left (keep-Distinct p xs d.1)
]

first_times-Distinct : (xs : List Text) → Distinct (first_times xs)
first_times-Distinct [] = tt
first_times-Distinct (x ∷ xs) = (
  ground (arith, contains-keep x (λ y. not (y == x)) (first_times xs), list_beq_iff x x),
  keep-Distinct (λ y. not (y == x)) (first_times xs) (first_times-Distinct xs),
)

contains-first_times : (y : Text) (xs : List Text) → contains y (first_times xs) ≡ contains y xs
unfolding contains
contains-first_times y [] = refl
contains-first_times y (x ∷ xs) = ground (
  arith,
  contains-keep y (λ z. not (z == x)) (first_times xs),
  contains-first_times y xs,
  list_beq_iff x y,
  list_beq_iff y x,
)

keep_all : (xs : List Text) → keep (λ y. not (contains y [])) xs ≡ xs
unfolding contains
keep_all [] = refl
keep_all (x ∷ xs) = ap (λ ys. x ∷ ys) (keep_all xs)

-- What the loop makes of a list: its items, none of them twice, in the order of their first time.
pub add_unseen_lem :
    (xs : List Text)
    → (add_unseen [] xs ≡ first_times xs)
      × Distinct (first_times xs)
      × ((y : Text) → contains y (first_times xs) ≡ contains y xs)
add_unseen_lem xs = (
  add_unseen-append [] xs ∙ keep_all (first_times xs),
  first_times-Distinct xs,
  λ y. contains-first_times y xs,
)
