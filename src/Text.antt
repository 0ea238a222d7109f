-- ===== src/Text.antt =====
-- Python's `str` as the list of its code points, with the methods that the program calls.
pub mod Replace
pub mod Lines
pub mod Number
pub mod Search
pub mod Strip
use Prim.Native.Char.{code}
use Prim.Native.String
use iruka_virtual_file_syste.Prelude.{
  ℕ, ◌/◌, ◌%◌, ◌+◌, String, Bool, true, false, ◌&&◌, List, [], ◌∷◌, ◌++◌, Eq, ◌==◌, nat_eq, list_eq,
  zero, suc, ltb, if◌then◌else◌,
}

abbrev pub Text : Type 0
Text = List ℕ

-- A literal of the source. It is shut, so that messages stay short in proofs.
unfoldable pub text : String → Text
text String.[] = []
text (String.◌∷◌ c s) = code c ∷ text s

-- `s.startswith(prefix)`
unfoldable pub starts_with : Text → Text → Bool
starts_with s [] = true
starts_with [] (p ∷ ps) = false
starts_with (c ∷ s) (p ∷ ps) = c == p && starts_with s ps

-- `sep.join(parts)`
unfoldable pub join : Text → List Text → Text
join sep [] = []
join sep (p ∷ []) = p
join sep (p ∷ q ∷ ps) = p ++ sep ++ join sep (q ∷ ps)

-- `s.split(c)` for a single character
unfoldable pub split_on : ℕ → Text → List Text
split_on c [] = [] ∷ []
split_on c (x ∷ s) = split_cons (x == c) x (split_on c s)
  where
    split_cons : Bool → ℕ → List Text → List Text
    split_cons true x parts = [] ∷ parts
    split_cons false x [] = (x ∷ []) ∷ []
    split_cons false x (p ∷ parts) = (x ∷ p) ∷ parts
