-- ===== src/Dict/Laws.antt =====
-- Lookup laws of the dictionary operations, and the keys that an update leaves.
use iruka_virtual_file_syste.Prelude.{
  ℕ, ◌+◌, ap, is_some, inl, inr, Bool-cases, Distinct, ◌≡◌, refl, true, false, ◌||◌, not, ◌&&◌,
  none, some, [], ◌∷◌, arith, Eq, contains, if◌then◌else◌,
}
use iruka_virtual_file_syste.Dict.{Dict, keys, get, put, remove}

module _ {ℓ κ} {K : Type ℓ} {V : Type κ} ⦃e : Eq K⦄ where
  pub get-put :
      (j k : K) (v : V) (d : Dict K V) → get j (put k v d) ≡ (if e.beq k j then some v else get j d)
  unfolding get put
  get-put j k v [] = refl
  get-put j k v ((i, w) ∷ d) =
      ground (arith, e.beq_iff k j, e.beq_iff i k, e.beq_iff i j, get-put j k v d)

  pub get-remove :
      (j k : K) (d : Dict K V) → get j (remove k d) ≡ (if e.beq k j then none else get j d)
  unfolding get remove
  get-remove j k [] = ground arith
  get-remove j k ((i, w) ∷ d) =
      ground (arith, e.beq_iff k j, e.beq_iff i k, e.beq_iff i j, get-remove j k d)

  pub contains-keys-put :
      (j k : K) (v : V) (d : Dict K V)
      → contains j (keys (put k v d)) ≡ (e.beq k j || contains j (keys d))
  unfolding keys put contains
  contains-keys-put j k v [] = refl
  contains-keys-put j k v ((i, w) ∷ d) =
      ground (arith, e.beq_iff k j, e.beq_iff i k, e.beq_iff i j, contains-keys-put j k v d)

  pub contains-keys-remove :
      (j k : K) (d : Dict K V)
      → contains j (keys (remove k d)) ≡ (not (e.beq k j) && contains j (keys d))
  unfolding keys remove contains
  contains-keys-remove j k [] = ground arith
  contains-keys-remove j k ((i, w) ∷ d) =
      ground (arith, e.beq_iff k j, e.beq_iff i k, e.beq_iff i j, contains-keys-remove j k d)

  pub get-eq-none_of_not-contains :
      (k : K) (d : Dict K V) → contains k (keys d) ≡ false → get k d ≡ none
  unfolding get keys contains
  get-eq-none_of_not-contains k [] h = refl
  get-eq-none_of_not-contains k ((i, w) ∷ d) h = ground (arith, get-eq-none_of_not-contains k d)

  pub contains-keys_of_get :
      (k : K) (d : Dict K V) {v : V} → get k d ≡ some v → contains k (keys d) ≡ true
  unfolding get keys contains
  contains-keys_of_get k [] h = ground arith
  contains-keys_of_get k ((i, w) ∷ d) {v} h = ground (arith, contains-keys_of_get k d {v = v})

  remove_absent : (k : K) (d : Dict K V) → contains k (keys d) ≡ false → remove k d ≡ d
  unfolding remove keys contains
  remove_absent k [] h = refl
  remove_absent k ((j, w) ∷ d) h = ground (arith, remove_absent k d)

  pub put-Distinct :
      (k : K) (v : V) (d : Dict K V) → Distinct (keys d) → Distinct (keys (put k v d))
  unfolding put keys contains
  put-Distinct k v [] h = (refl, tt)
  put-Distinct k v ((j, w) ∷ d) h = elim (Bool-cases (e.beq j k)) [
    | inl same ↦ rw same h
    | inr other ↦ rw other (
      rw contains-keys-put (ground (arith, h.0, e.beq_iff k j, e.beq_iff j k)),
      put-Distinct k v d h.1,
    )
  ]

  pub remove-Distinct : (k : K) (d : Dict K V) → Distinct (keys d) → Distinct (keys (remove k d))
  unfolding remove keys contains
  remove-Distinct k [] h = tt
  remove-Distinct k ((j, w) ∷ d) h = elim (Bool-cases (e.beq j k)) [
    | inl same ↦ rw same (remove-Distinct k d h.1)
    | inr other ↦
        rw other (ground (arith, h.0, contains-keys-remove j k d), remove-Distinct k d h.1)
  ]

-- The sum of a measure over the values of a dictionary.
module _ {ℓ κ} {K : Type ℓ} {V : Type κ} (size : V → ℕ) where
  unfoldable pub total : Dict K V → ℕ
  total [] = 0
  total ((k, v) ∷ d) = size v + total d

module _ {ℓ κ} {K : Type ℓ} {V : Type κ} ⦃e : Eq K⦄ (size : V → ℕ) where
  pub total-put_new :
      (k : K) (v : V) (d : Dict K V)
      → get k d ≡ none
      → total size (put k v d) ≡ total size d + size v
  unfolding total put get
  total-put_new k v [] h = omega arith
  total-put_new k v ((j, w) ∷ d) h = ground (arith, total-put_new k v d)

  pub total-put_old :
      (k : K) (v : V) (d : Dict K V) {w : V}
      → get k d ≡ some w
      → total size (put k v d) + size w ≡ total size d + size v
  unfolding total put get
  total-put_old k v [] h = ground arith
  total-put_old k v ((j, w) ∷ d) {w = u} h = ground (arith, total-put_old k v d {w = u})

  pub total-remove :
      (k : K) (d : Dict K V) {w : V}
      → Distinct (keys d)
      → get k d ≡ some w
      → total size (remove k d) + size w ≡ total size d
  unfolding total remove get keys
  total-remove k [] u h = ground arith
  total-remove k ((j, w) ∷ d) {w = x} u h = elim (Bool-cases (e.beq j k)) [
    | inl same ↦ ground (
      arith,
      e.beq_iff j k,
      remove_absent k d,
      ap (λ (i : K). contains i (keys d)) ((e.beq_iff j k).0 same),
    )
    | inr other ↦ ground (arith, total-remove k d {w = x} u.1)
  ]

module _ {ℓ κ} {K : Type ℓ} {V : Type κ} ⦃e : Eq K⦄ where
  pub contains-keys-eq : (k : K) (d : Dict K V) → contains k (keys d) ≡ is_some (get k d)
  unfolding get keys contains
  contains-keys-eq k [] = refl
  contains-keys-eq k ((j, w) ∷ d) = ground (arith, contains-keys-eq k d)
