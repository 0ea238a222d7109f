-- ===== src/Editing/Slices.antt =====
-- Python's list indexing and slicing, where an index may be negative.
use iruka_virtual_file_syste.Prelude.{
  ℕ, suc, ◌-◌, List, ℤ, pos, negsuc, int_leb, length, take, drop, get_elem?, ltb, if◌then◌else◌,
}
use iruka_virtual_file_syste.Result.{Result, index_error, require, raise}

module _ {ℓ} {A : Type ℓ} where
  -- Where a slice bound lies in the list.
  abbrev pub slice_bound : List A → ℤ → ℕ
  slice_bound xs (pos n) = n
  slice_bound xs (negsuc n) = length xs - suc n

  -- `xs[i:]`
  abbrev pub slice_from : List A → ℤ → List A
  slice_from xs i = drop (slice_bound xs i) xs

  -- `xs[i:j]`
  abbrev pub slice : List A → ℤ → ℤ → List A
  slice xs i j = take (slice_bound xs j - slice_bound xs i) (slice_from xs i)

  -- `xs[i]`
  abbrev pub item : List A → ℤ → Result A
  item xs (pos n) = require index_error (get_elem? xs n)
  item xs (negsuc n) =
      if ltb n (length xs)
      then require index_error (get_elem? xs (length xs - suc n))
      else raise index_error

abbrev pub max_int : ℤ → ℤ → ℤ
max_int a b = if int_leb a b then b else a
