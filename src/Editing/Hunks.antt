-- ===== src/Editing/Hunks.antt =====
-- `apply_unified_patch` applies the hunks of a diff that fits the text.
use iruka_virtual_file_syste.Prelude.{
  ℕ, zero, suc, ◌+◌, ◌≡◌, ◌∙◌, refl, sym, ap, true, false, some, List, [], ◌∷◌, ◌++◌, map, ℤ, pos,
  leb, length, drop, take, get_elem?, nat_eq, list_eq, beq_refl, arith, append-nil, append_assoc,
}
use iruka_virtual_file_syste.Text.{Text, text, starts_with}
use iruka_virtual_file_syste.Text.Lines.{splitlines}
use iruka_virtual_file_syste.Result.{Result, ok}
use iruka_virtual_file_syste.Editing.Slices.{slice, slice_from, max_int}
use iruka_virtual_file_syste.Editing.Patch.{
  match_header, Applied, lines, apply_line, moved, mismatch, Place, between, inside, cursor_of,
  patch_from, join_lines, apply_unified_patch, apply_marked,
}

-- A line of a hunk: kept, removed or added.
pub data Edit : Type 0 where
  kept removed added : Text → Edit

abbrev pub edit_line : Edit → Text
edit_line (kept t) = 32 ∷ t
edit_line (removed t) = 45 ∷ t
edit_line (added t) = 43 ∷ t

abbrev pub old_of : List Edit → List Text
old_of [] = []
old_of (kept t ∷ es) = t ∷ old_of es
old_of (removed t ∷ es) = t ∷ old_of es
old_of (added t ∷ es) = old_of es

abbrev pub new_of : List Edit → List Text
new_of [] = []
new_of (kept t ∷ es) = t ∷ new_of es
new_of (removed t ∷ es) = new_of es
new_of (added t ∷ es) = t ∷ new_of es

-- A hunk with the lines between it and the one before.
pub record Hunk : Type 0 where
  pub gap : List Text
  pub header : Text
  pub edits : List Edit

-- The lines of the diff, of the text before it and of the text after it.
abbrev pub diff_lines : List Hunk → List Text
diff_lines [] = []
diff_lines (h ∷ hs) = h.header ∷ (map edit_line h.edits ++ diff_lines hs)

abbrev pub old_lines : List Hunk → List Text → List Text
old_lines [] tail = tail
old_lines (h ∷ hs) tail = h.gap ++ (old_of h.edits ++ old_lines hs tail)

abbrev pub new_lines : List Hunk → List Text → List Text
new_lines [] tail = tail
new_lines (h ∷ hs) tail = h.gap ++ (new_of h.edits ++ new_lines hs tail)

-- Each header names the line, counted from 1, at which its hunk begins.
abbrev pub AreNumbered : ℕ → List Hunk → Type 0
AreNumbered n [] = Unit
AreNumbered n (h ∷ hs) =
    (starts_with h.header (text "@@") ≡ true)
    × (match_header h.header ≡ some (suc (n + length h.gap)))
    × AreNumbered (n + length h.gap + length (old_of h.edits)) hs

max_int-add : (n k : ℕ) → max_int (pos (n + k)) (pos n) ≡ pos (n + k)
max_int-add n k = ground arith

module _ {A : Type 0} where
  -- The item at the front of what is left of a list.
  front_of_drop :
      (n : ℕ) (xs rest : List A) (x : A)
      → drop n xs ≡ x ∷ rest
      → (get_elem? xs n ≡ some x) × (leb (length xs) n ≡ false) × (drop (suc n) xs ≡ rest)
  front_of_drop zero [] rest x h = absurd (ground arith)
  front_of_drop zero (y ∷ xs) rest x h = ground arith
  front_of_drop (suc n) [] rest x h = absurd (ground arith)
  front_of_drop (suc n) (y ∷ xs) rest x h =
      let (e, small, left) = front_of_drop n xs rest x h in (e, ground (arith, small), left)

  drop-append :
      (n : ℕ) (xs front rest : List A)
      → drop n xs ≡ front ++ rest
      → drop (n + length front) xs ≡ rest
  drop-append n xs [] rest h = ap (λ m. drop m xs) (omega arith) ∙ h
  drop-append n xs (x ∷ front) rest h =
      let (e, small, left) = front_of_drop n xs (front ++ rest) x h in
      ap (λ m. drop m xs) (omega arith) ∙ drop-append (suc n) xs front rest left

  take-append : (front rest : List A) → take (length front) (front ++ rest) ≡ front
  take-append [] [] = refl
  take-append [] (y ∷ rest) = refl
  take-append (x ∷ front) rest = ap (◌∷◌ x) (take-append front rest)

  -- The slice from a cursor to the start of the next hunk.
  slice_gap :
      (n : ℕ) (xs gap rest : List A)
      → drop n xs ≡ gap ++ rest
      → slice xs (pos n) (max_int (pos (n + length gap)) (pos n)) ≡ gap
  slice_gap n xs gap rest h =
      ap (λ i. slice xs (pos n) i) (max_int-add n (length gap))
      ∙ ap (λ k. take k (drop n xs)) (omega arith)
      ∙ ap (take (length gap)) h
      ∙ take-append gap rest

-- A kept or removed line that the text has at the position.
mismatch-none :
    (original rest : List Text) (n : ℕ) (t : Text)
    → drop n original ≡ t ∷ rest
    → mismatch original (pos n) t ≡ ok false
unfolding mismatch
mismatch-none original rest n t h =
    let (e, small, left) = front_of_drop n original rest t h in
    rw small (rw e (rw (beq_refl t) refl))

apply_line-kept :
    (original output rest : List Text) (n : ℕ) (t : Text)
    → drop n original ≡ t ∷ rest
    → apply_line original output (pos n) (32 ∷ t) ≡ ok (moved (output ++ t ∷ []) (pos (n + 1)))
unfolding apply_line
apply_line-kept original output rest n t h =
    let (e, small, left) = front_of_drop n original rest t h in
    rw (mismatch-none original rest n t h, apply_marked) (rw e refl)

apply_line-removed :
    (original output rest : List Text) (n : ℕ) (t : Text)
    → drop n original ≡ t ∷ rest
    → apply_line original output (pos n) (45 ∷ t) ≡ ok (moved output (pos (n + 1)))
unfolding apply_line
apply_line-removed original output rest n t h =
    rw (mismatch-none original rest n t h, apply_marked) refl

apply_line-added :
    (original output : List Text) (n : ℕ) (t : Text)
    → apply_line original output (pos n) (43 ∷ t) ≡ ok (moved (output ++ t ∷ []) (pos n))
unfolding apply_line
apply_line-added original output n t = refl

-- A line that is no header moves the position inside a hunk.
patch_from-line :
    (original output output' : List Text) (idx : ℕ) (p p' : ℤ) (line : Text) (rest : List Text)
    → starts_with line (text "@@") ≡ false
    → apply_line original output p line ≡ ok (moved output' p')
    → patch_from original idx output (inside p) (line ∷ rest)
      ≡ patch_from original (suc idx) output' (inside p') rest
unfolding patch_from starts_with text
patch_from-line original output output' idx p p' line rest plain e = rw plain (rw e refl)

edit_line_plain : (e : Edit) → starts_with (edit_line e) (text "@@") ≡ false
unfolding starts_with text
edit_line_plain (kept t) = refl
edit_line_plain (removed t) = refl
edit_line_plain (added t) = refl

-- The lines of a hunk that fits write its new lines and pass its old ones.
patch_from-edits :
    (original output rest after : List Text) (idx n : ℕ) (es : List Edit) (r : Result Applied)
    → drop n original ≡ old_of es ++ after
    → ((idx' : ℕ)
        → patch_from original idx'
            (output ++ new_of es)
            (inside (pos (n + length (old_of es))))
            rest
          ≡ r)
    → patch_from original idx output (inside (pos n)) (map edit_line es ++ rest) ≡ r
patch_from-edits original output rest after idx n [] r h k =
    ap (λ o. patch_from original idx o (inside (pos n)) rest) (sym (append-nil output))
    ∙ ap (λ m. patch_from original idx (output ++ []) (inside (pos m)) rest) (omega arith)
    ∙ k idx
patch_from-edits original output rest after idx n (kept t ∷ es) r h k =
    patch_from-line original output (output ++ t ∷ []) idx (pos n) (pos (n + 1)) (32 ∷ t)
      (map edit_line es ++ rest) (edit_line_plain (kept t))
      (apply_line-kept original output (old_of es ++ after) n t h)
    ∙ patch_from-edits original (output ++ t ∷ []) rest after (suc idx) (n + 1) es r
        (ap (λ m. drop m original) {y = suc n} (omega arith)
          ∙ (front_of_drop n original (old_of es ++ after) t h).2)
        (λ idx'.
          ap (λ o. patch_from original idx' o (inside (pos (n + 1 + length (old_of es)))) rest)
            (append_assoc output (t ∷ []) (new_of es))
          ∙ ap (λ m. patch_from original idx' (output ++ t ∷ new_of es) (inside (pos m)) rest)
              (omega arith)
          ∙ k idx')
patch_from-edits original output rest after idx n (removed t ∷ es) r h k =
    patch_from-line original output output idx (pos n) (pos (n + 1)) (45 ∷ t)
      (map edit_line es ++ rest) (edit_line_plain (removed t))
      (apply_line-removed original output (old_of es ++ after) n t h)
    ∙ patch_from-edits original output rest after (suc idx) (n + 1) es r
        (ap (λ m. drop m original) {y = suc n} (omega arith)
          ∙ (front_of_drop n original (old_of es ++ after) t h).2)
        (λ idx'.
          ap (λ m. patch_from original idx' (output ++ new_of es) (inside (pos m)) rest)
            (omega arith)
          ∙ k idx')
patch_from-edits original output rest after idx n (added t ∷ es) r h k =
    patch_from-line original output (output ++ t ∷ []) idx (pos n) (pos n) (43 ∷ t)
      (map edit_line es ++ rest) (edit_line_plain (added t)) (apply_line-added original output n t)
    ∙ patch_from-edits original (output ++ t ∷ []) rest after (suc idx) n es r h (λ idx'.
      ap (λ o. patch_from original idx' o (inside (pos (n + length (old_of es)))) rest)
        (append_assoc output (t ∷ []) (new_of es))
      ∙ k idx')

-- A header whose number is read moves on to its hunk.
patch_from-header :
    (original output rest : List Text) (idx n start : ℕ) (place : Place) (header : Text)
    → starts_with header (text "@@") ≡ true
    → match_header header ≡ some (suc start)
    → cursor_of place ≡ pos n
    → patch_from original idx output place (header ∷ rest)
      ≡ patch_from original
          (suc idx)
          (output ++ slice original (pos n) (max_int (pos start) (pos n)))
          (inside (pos start))
          rest
unfolding patch_from starts_with text
patch_from-header original output rest idx n start place header at e c = rw at (
    rw e (
      ap
        (λ i.
          patch_from original (suc idx) (output ++ slice original i (max_int (pos start) i))
            (inside (pos start)) rest)
        c))

patch_from-hunks :
    (original output tail : List Text) (idx n : ℕ) (place : Place) (hs : List Hunk)
    → drop n original ≡ old_lines hs tail
    → cursor_of place ≡ pos n
    → AreNumbered n hs
    → patch_from original idx output place (diff_lines hs)
      ≡ ok (lines (output ++ new_lines hs tail))
unfolding patch_from
patch_from-hunks original output tail idx n place [] h c numbered =
    ap (λ i. ok (lines (output ++ slice_from original i))) c ∙ ap (λ t. ok (lines (output ++ t))) h
patch_from-hunks original output tail idx n place (hk ∷ hs) h c (at, e, numbered) =
    let left : drop (n + length hk.gap) original ≡ old_of hk.edits ++ old_lines hs tail =
      drop-append n original hk.gap (old_of hk.edits ++ old_lines hs tail) h in
    patch_from-header original output (map edit_line hk.edits ++ diff_lines hs) idx n
      (n + length hk.gap) place hk.header at e c
    ∙ ap
        (λ g.
          patch_from original (suc idx) (output ++ g) (inside (pos (n + length hk.gap)))
            (map edit_line hk.edits ++ diff_lines hs))
        (slice_gap n original hk.gap (old_of hk.edits ++ old_lines hs tail) h)
    ∙ patch_from-edits original (output ++ hk.gap) (diff_lines hs) (old_lines hs tail) (suc idx)
        (n + length hk.gap) hk.edits (ok (lines (output ++ new_lines (hk ∷ hs) tail))) left
        (λ idx'.
          patch_from-hunks original (output ++ hk.gap ++ new_of hk.edits) tail idx'
            (n + length hk.gap + length (old_of hk.edits))
            (inside (pos (n + length hk.gap + length (old_of hk.edits)))) hs
            (drop-append (n + length hk.gap) original (old_of hk.edits) (old_lines hs tail) left)
            refl numbered
          ∙ ap (λ o. ok (lines o)) (regroup output hk.gap (new_of hk.edits) (new_lines hs tail)))
  where
    regroup : (a b c d : List Text) → a ++ b ++ c ++ d ≡ a ++ (b ++ (c ++ d))
    regroup a b c d = append_assoc (a ++ b) c d ∙ append_assoc a b (c ++ d)

-- A diff whose hunks fit the text, with headers that number their lines, is applied: the result
-- has the new lines of each hunk between the unchanged ones, with the text's last newline, and no
-- conflict. The conditions are that the diff's lines are the hunks' headers and lines, and that the
-- text's lines are the gaps and the old lines of the hunks in order, then the tail.
pub apply_unified_patch_lem :
    (before diff_text : Text) (hs : List Hunk) (tail : List Text)
    → splitlines diff_text ≡ diff_lines hs
    → splitlines before ≡ old_lines hs tail
    → AreNumbered 0 hs
    → apply_unified_patch before diff_text ≡ ok (join_lines before (new_lines hs tail), [])
unfolding apply_unified_patch
apply_unified_patch_lem before diff_text hs tail d b numbered =
    rw (d, apply_unified_patch)
      (rw (patch_from-hunks (splitlines before) [] tail 0 0 (between (pos 0)) hs b refl numbered)
        refl)
