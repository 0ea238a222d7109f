-- ===== src/Text/Number/Laws.antt =====
-- `str` of a number reads back as the number, and holds no character but digits and a sign.
use iruka_virtual_file_syste.Prelude.{
  ℕ, zero, suc, ◌+◌, ◌*◌, ◌/◌, ◌%◌, ◌<◌, ◌≡◌, sym, ap, ◌∙◌, inl, inr, false, List, [], ◌∷◌, ℤ, pos,
  negsuc, contains, nat_eq, ltb, Bool-cases, arith,
}
use iruka_virtual_file_syste.Text.Number.{is_digit, show_from, show_nat, show_int, read_digits}

read_digits-show_from :
    (fuel n : ℕ) (rest : List ℕ)
    → n < fuel
    → read_digits 0 (show_from fuel n rest) ≡ read_digits n rest
unfolding show_from read_digits is_digit
read_digits-show_from zero n rest h = elim h [ ]
read_digits-show_from (suc f) n rest h = elim (Bool-cases (ltb n 10)) [
  | inl small ↦ ground arith
  | inr large ↦ rw large (
      read_digits-show_from f (n / 10) ((48 + n % 10) ∷ rest) (ground arith)
      ∙ digit (n / 10) (n % 10) rest (omega arith)
      ∙ ap (λ k. read_digits k rest) (omega arith))
]
  where
    digit :
        (k d : ℕ) (rest : List ℕ)
        → d < 10
        → read_digits k ((48 + d) ∷ rest) ≡ read_digits (k * 10 + d) rest
    digit k d rest h = ground arith

pub read_digits-show_nat : (n : ℕ) → read_digits 0 (show_nat n) ≡ (n, [])
unfolding show_nat read_digits
read_digits-show_nat n = read_digits-show_from (suc n) n [] (omega arith)

contains-show_from :
    (c fuel n : ℕ) (rest : List ℕ)
    → is_digit c ≡ false
    → n < fuel
    → contains c (show_from fuel n rest) ≡ contains c rest
unfolding show_from contains is_digit
contains-show_from c zero n rest d h = elim h [ ]
contains-show_from c (suc f) n rest d h = elim (Bool-cases (ltb n 10)) [
  | inl small ↦ ground arith
  | inr large ↦ rw large (
      contains-show_from c f (n / 10) ((48 + n % 10) ∷ rest) d (ground arith)
      ∙ other (n % 10) (omega arith))
]
  where
    other : (k : ℕ) → k < 10 → contains c ((48 + k) ∷ rest) ≡ contains c rest
    other k h = ground arith

-- A character that is no digit and no sign is not in the text of a number.
pub contains-show_int :
    (c : ℕ) (i : ℤ)
    → is_digit c ≡ false
    → contains c (b'-' ∷ []) ≡ false
    → contains c (show_int i) ≡ false
unfolding show_int show_nat contains
contains-show_int c (pos n) d s = contains-show_from c (suc n) n [] d (omega arith)
contains-show_int c (negsuc n) d s =
    let e = contains-show_from c (suc (suc n)) (suc n) [] d (omega arith) in rw e s

show_nat-ne_sign : (n : ℕ) (s : List ℕ) → show_nat n ≡ b'-' ∷ s → n ≡ n + 1
unfolding read_digits is_digit
show_nat-ne_sign n s h = let e = sym (read_digits-show_nat n) ∙ ap (read_digits 0) h in ground arith

pub show_nat_inj : (n k : ℕ) → show_nat n ≡ show_nat k → n ≡ k
show_nat_inj n k h =
    ap (λ (p : ℕ × List ℕ). p.0)
      (sym (read_digits-show_nat n) ∙ ap (read_digits 0) h ∙ read_digits-show_nat k)

pub show_int_inj : (i j : ℤ) → show_int i ≡ show_int j → i ≡ j
unfolding show_int
show_int_inj (pos n) (pos k) h = ap pos (show_nat_inj n k h)
show_int_inj (pos n) (negsuc k) h = absurd (omega (arith, show_nat-ne_sign n (show_nat (suc k)) h))
show_int_inj (negsuc n) (pos k) h =
    absurd (omega (arith, show_nat-ne_sign k (show_nat (suc n)) (sym h)))
show_int_inj (negsuc n) (negsuc k) h = ap negsuc (omega (arith, show_nat_inj (suc n) (suc k) (cc)))
