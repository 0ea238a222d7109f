-- ===== src/Prelude/Equality.antt =====
-- Python's `==` as an interface, its instances for the types of the program, and `in` on lists.
use Prim.Native.Nat.{ℕ, zero, suc, ◌≤◌}
use mathlib.Core.Path.{◌≡◌, refl, ap}
use mathlib.Core.Logic.{◌↔◌}
use mathlib.Core.Bool.{Bool, true, false, ◌&&◌, ◌||◌}
use mathlib.Core.Option.{Option, none, some}
use mathlib.Core.List.{List, [], ◌∷◌, ◌++◌}
use native.Mathlib.Omega.{arith}
use iruka_virtual_file_syste.Prelude.Tests.{nat_beq, nat_beq_iff}
use iruka_virtual_file_syste.Prelude.Lists.{keep, drop, length}

pub record Eq {ℓ} (A : Type ℓ) : Type ℓ where
  pub beq : A → A → Bool
  -- two values are equal in the source when they are the same value
  pub beq_iff : (x y : A) → (beq x y ≡ true) ↔ (x ≡ y)

module _ {ℓ} {A : Type ℓ} ⦃e : Eq A⦄ where
  unfoldable pub list_beq : List A → List A → Bool
  list_beq [] [] = true
  list_beq [] (y ∷ ys) = false
  list_beq (x ∷ xs) [] = false
  list_beq (x ∷ xs) (y ∷ ys) = e.beq x y && list_beq xs ys

  pub list_beq_iff : (xs ys : List A) → (list_beq xs ys ≡ true) ↔ (xs ≡ ys)
  unfolding list_beq
  list_beq_iff [] [] = (λ _. refl, λ _. refl)
  list_beq_iff [] (y ∷ ys) = (λ h. cc, λ h. cc)
  list_beq_iff (x ∷ xs) [] = (λ h. cc, λ h. cc)
  list_beq_iff (x ∷ xs) (y ∷ ys) = (
    λ h. ground (arith, e.beq_iff x y, list_beq_iff xs ys),
    λ h. ground (arith, e.beq_iff x y, list_beq_iff xs ys),
  )

  instance abbrev pub list_eq : Eq (List A)
  list_eq = record { beq = list_beq; beq_iff = list_beq_iff }

  unfoldable pub option_beq : Option A → Option A → Bool
  option_beq none none = true
  option_beq none (some b) = false
  option_beq (some a) none = false
  option_beq (some a) (some b) = e.beq a b

  pub option_beq_iff : (a b : Option A) → (option_beq a b ≡ true) ↔ (a ≡ b)
  unfolding option_beq
  option_beq_iff none none = (λ _. refl, λ _. refl)
  option_beq_iff none (some b) = (λ h. cc, λ h. cc)
  option_beq_iff (some a) none = (λ h. cc, λ h. cc)
  option_beq_iff (some a) (some b) =
      (λ h. ground (arith, e.beq_iff a b), λ h. ground (arith, e.beq_iff a b))

  instance abbrev pub option_eq : Eq (Option A)
  option_eq = record { beq = option_beq; beq_iff = option_beq_iff }

  -- `a in xs`
  unfoldable pub contains : A → List A → Bool
  contains a [] = false
  contains a (x ∷ xs) = e.beq x a || contains a xs

  pub beq_refl : (a : A) → e.beq a a ≡ true
  beq_refl a = (e.beq_iff a a).1 refl

  -- A test that is true exactly for equal values is their comparison.
  pub beq_of_iff :
      (a b : A) (test : Bool) → (a ≡ b → test ≡ true) → (test ≡ true → a ≡ b) → e.beq a b ≡ test
  beq_of_iff a b true f g = (e.beq_iff a b).1 (g refl)
  beq_of_iff a b false f g = ground (arith, e.beq_iff a b, f)

  pub contains-append :
      (a : A) (xs ys : List A) → contains a (xs ++ ys) ≡ (contains a xs || contains a ys)
  unfolding contains
  contains-append a [] ys = refl
  contains-append a (x ∷ xs) ys = ground (arith, contains-append a xs ys)

  pub contains-keep :
      (a : A) (p : A → Bool) (xs : List A) → contains a (keep p xs) ≡ (p a && contains a xs)
  unfolding contains
  contains-keep a p [] = ground arith
  contains-keep a p (x ∷ xs) =
      ground (arith, contains-keep a p xs, e.beq_iff x a, λ (q : x ≡ a). ap p q)

  -- What a list lacks, its ends lack.
  pub not-contains-drop :
      (a : A) (n : ℕ) (xs : List A) → contains a xs ≡ false → contains a (drop n xs) ≡ false
  unfolding contains
  not-contains-drop a zero xs h = h
  not-contains-drop a (suc n) [] h = h
  not-contains-drop a (suc n) (x ∷ xs) h = not-contains-drop a n xs (ground arith)

  -- The last item stays while no more than what stands before it is dropped.
  pub contains-drop_last :
      (a : A) (n : ℕ) (xs : List A) → n ≤ length xs → contains a (drop n (xs ++ (a ∷ []))) ≡ true
  unfolding contains
  contains-drop_last a zero xs h = rw (contains-append, beq_refl) (ground arith)
  contains-drop_last a (suc n) [] h = absurd (omega arith)
  contains-drop_last a (suc n) (x ∷ xs) h = contains-drop_last a n xs (omega arith)

  -- A list with no item twice.
  abbrev pub Distinct : List A → Type 0
  Distinct [] = Unit
  Distinct (x ∷ xs) = (contains x xs ≡ false) × Distinct xs

  pub append-Distinct :
      (xs : List A) (a : A) → Distinct xs → contains a xs ≡ false → Distinct (xs ++ (a ∷ []))
  unfolding contains
  append-Distinct [] a d h = (refl, tt)
  append-Distinct (x ∷ xs) a d h = (
    rw contains-append (ground (arith, d.0, e.beq_iff a x, e.beq_iff x a)),
    append-Distinct xs a d.1 (ground arith),
  )

instance abbrev pub nat_eq : Eq ℕ
nat_eq = record { beq = nat_beq; beq_iff = nat_beq_iff }

-- `a == b`
infix 50 ◌==◌
abbrev pub ◌==◌ {ℓ} : {A : Type ℓ} ⦃e : Eq A⦄ → A → A → Bool
◌==◌ ⦃e⦄ = e.beq

module _ {ℓ κ} {A : Type ℓ} {B : Type κ} ⦃e : Eq A⦄ ⦃f : Eq B⦄ where
  abbrev pub pair_beq : A × B → A × B → Bool
  pair_beq p q = e.beq p.0 q.0 && f.beq p.1 q.1

  pub pair_beq_iff : (p q : A × B) → (pair_beq p q ≡ true) ↔ (p ≡ q)
  pair_beq_iff (a, b) (c, d) = (
    λ h. ground (arith, e.beq_iff a c, f.beq_iff b d),
    λ h. ground (arith, e.beq_iff a c, f.beq_iff b d),
  )

  instance abbrev pub pair_eq : Eq (A × B)
  pair_eq = record { beq = pair_beq; beq_iff = pair_beq_iff }
