-- ===== src/Text/Strip.antt =====
-- `str.strip`, `str.lstrip` and `str.rstrip`, for white space and for given characters.
use iruka_virtual_file_syste.Prelude.{
  ℕ, Bool, ◌&&◌, ◌||◌, List, [], ◌∷◌, ◌==◌, nat_eq, leb, if◌then◌else◌,
}

-- `str.isspace` of a character
unfoldable pub is_space : ℕ → Bool
is_space c =
    (leb 9 c && leb c 13)
    || (leb 28 c && leb c 32)
    || c == 133
    || c == 160
    || c == 5760
    || (leb 8192 c && leb c 8202)
    || c == 8232
    || c == 8233
    || c == 8239
    || c == 8287
    || c == 12288

module _ (drop_char : ℕ → Bool) where
  -- the text without its leading characters that satisfy the test
  unfoldable pub lstrip_by : List ℕ → List ℕ
  lstrip_by [] = []
  lstrip_by (c ∷ s) = let rest = lstrip_by s in if drop_char c then rest else c ∷ s

  unfoldable pub rstrip_cons : ℕ → List ℕ → List ℕ
  rstrip_cons c [] = if drop_char c then [] else c ∷ []
  rstrip_cons c (d ∷ s) = c ∷ d ∷ s

  -- the text without its trailing characters that satisfy the test
  unfoldable pub rstrip_by : List ℕ → List ℕ
  unfolding rstrip_cons
  rstrip_by [] = []
  rstrip_by (c ∷ s) = rstrip_cons c (rstrip_by s)

unfoldable pub strip : List ℕ → List ℕ
unfolding lstrip_by rstrip_by is_space
strip s = rstrip_by is_space (lstrip_by is_space s)

unfoldable pub rstrip : List ℕ → List ℕ
unfolding rstrip_by is_space
rstrip s = rstrip_by is_space s

-- `s.rstrip("/")`
unfoldable pub rstrip_char : ℕ → List ℕ → List ℕ
unfolding rstrip_by
rstrip_char c = rstrip_by (λ d. d == c)

-- `s.lstrip("/")`
unfoldable pub lstrip_char : ℕ → List ℕ → List ℕ
unfolding lstrip_by
lstrip_char c = lstrip_by (λ d. d == c)
