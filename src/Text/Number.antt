-- ===== src/Text/Number.antt =====
-- `str(n)` and `int(s)` for decimal numbers. Only the digits 0 to 9 are read: Python also takes
-- those of other scripts.
pub mod Laws
use iruka_virtual_file_syste.Prelude.{
  ℕ, zero, suc, ◌+◌, ◌-◌, ◌*◌, ◌/◌, ◌%◌, Bool, ◌&&◌, List, [], ◌∷◌, ℤ, pos, negsuc, leb, ltb,
  if◌then◌else◌,
}

unfoldable pub is_digit : ℕ → Bool
is_digit c = leb 48 c && leb c 57

-- The digits of a number in front of those of `rest`. The number itself is fuel enough.
unfoldable pub show_from : ℕ → ℕ → List ℕ → List ℕ
show_from zero n rest = rest
show_from (suc fuel) n rest =
    let more = show_from fuel (n / 10) ((48 + n % 10) ∷ rest) in
    if ltb n 10 then (48 + n) ∷ rest else more

unfoldable pub show_nat : ℕ → List ℕ
unfolding show_from
show_nat n = show_from (suc n) n []

unfoldable pub show_int : ℤ → List ℕ
unfolding show_nat
show_int (pos n) = show_nat n
show_int (negsuc n) = b'-' ∷ show_nat (suc n)

-- The value of a run of digits after `n`, with what follows the run.
unfoldable pub read_digits : ℕ → List ℕ → ℕ × List ℕ
read_digits n [] = (n, [])
read_digits n (c ∷ s) =
    let more = read_digits (n * 10 + (c - 48)) s in if is_digit c then more else (n, c ∷ s)
