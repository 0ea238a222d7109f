-- ===== src/Sorting.antt =====
-- Python's `sorted` with a key: a stable sort, and the comparison of texts by code points.
use iruka_virtual_file_syste.Prelude.{
  map, ℕ, ◌≡◌, refl, Bool, true, false, ◌&&◌, ◌||◌, List, [], ◌∷◌, ◌==◌, nat_eq, arith, ltb, Eq,
  contains, if◌then◌else◌,
}

-- `a <= b` on texts
unfoldable pub text_leb : List ℕ → List ℕ → Bool
text_leb [] b = true
text_leb (x ∷ a) [] = false
text_leb (x ∷ a) (y ∷ b) = ltb x y || (x == y && text_leb a b)

module _ {ℓ} {A : Type ℓ} (le : A → A → Bool) where
  unfoldable pub insert_sorted : A → List A → List A
  insert_sorted x [] = x ∷ []
  insert_sorted x (y ∷ ys) =
      let rest = insert_sorted x ys in if le x y then x ∷ y ∷ ys else y ∷ rest

  -- equal items keep their order
  unfoldable pub sort_by : List A → List A
  unfolding insert_sorted
  sort_by [] = []
  sort_by (x ∷ xs) = insert_sorted x (sort_by xs)

module _ {ℓ} {A : Type ℓ} ⦃e : Eq A⦄ (le : A → A → Bool) where
  contains-insert_sorted :
      (a x : A) (xs : List A) → contains a (insert_sorted le x xs) ≡ (e.beq x a || contains a xs)
  unfolding insert_sorted contains
  contains-insert_sorted a x [] = refl
  contains-insert_sorted a x (y ∷ ys) = ground (arith, contains-insert_sorted a x ys)

  -- Sorting keeps the members of a list.
  pub contains-sort_by : (a : A) (xs : List A) → contains a (sort_by le xs) ≡ contains a xs
  unfolding sort_by contains
  contains-sort_by a [] = refl
  contains-sort_by a (x ∷ xs) =
      ground (arith, contains-insert_sorted a x (sort_by le xs), contains-sort_by a xs)

module _ {ℓ κ} {A : Type ℓ} {B : Type κ} ⦃e : Eq B⦄ (le : A → A → Bool) (f : A → B) where
  contains-map-insert_sorted :
      (b : B) (x : A) (xs : List A)
      → contains b (map f (insert_sorted le x xs)) ≡ (e.beq (f x) b || contains b (map f xs))
  unfolding insert_sorted contains
  contains-map-insert_sorted b x [] = refl
  contains-map-insert_sorted b x (y ∷ ys) = ground (arith, contains-map-insert_sorted b x ys)

  -- Sorting keeps the members of a list, seen through a function.
  pub contains-map-sort_by :
      (b : B) (xs : List A) → contains b (map f (sort_by le xs)) ≡ contains b (map f xs)
  unfolding sort_by contains
  contains-map-sort_by b [] = refl
  contains-map-sort_by b (x ∷ xs) =
      ground (arith, contains-map-insert_sorted b x (sort_by le xs), contains-map-sort_by b xs)
