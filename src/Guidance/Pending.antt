-- ===== src/Guidance/Pending.antt =====
-- What the events of one command do to the paths that still have to be verified, and the bound on
-- the tracked lists.
use iruka_virtual_file_syste.Prelude.{
  zero, ◌+◌, ◌-◌, ◌≤◌, ◌≡◌, refl, inl, inr, true, false, ◌||◌, List, [], ◌∷◌, ◌++◌, length,
  contains, list_eq, nat_eq, arith, Bool-cases, contains-drop_last, length-append, length-drop,
}
use iruka_virtual_file_syste.Text.{Text}
use iruka_virtual_file_syste.Guidance.Lists.{
  append_unique, trim_paths, unique_ordered, unique_from, is_empty, max_tracked_paths,
}
use iruka_virtual_file_syste.Guidance.Unique.{unique_ordered_lem}
use iruka_virtual_file_syste.Guidance.Tracking.{normalize_paths}

pub length-trim_paths-le : (paths : List Text) → length (trim_paths paths) ≤ max_tracked_paths
unfolding trim_paths
length-trim_paths-le paths = omega (arith, length-drop (length paths - 32) paths)

pub trim_paths_of_le :
    (paths : List Text) → length paths ≤ max_tracked_paths → trim_paths paths ≡ paths
unfolding trim_paths
trim_paths_of_le paths h = let e : length paths - 32 ≡ zero = omega arith in rw e refl

pub length-normalize_paths-le : (paths : List Text) → length (normalize_paths paths) ≤ 32
unfolding normalize_paths
length-normalize_paths-le paths = length-trim_paths-le (unique_ordered paths)

length-unique_from-le :
    (out paths : List Text) → length (unique_from out paths) ≤ length out + length paths
unfolding unique_from
length-unique_from-le out [] = omega arith
length-unique_from-le out (p ∷ paths) = elim (Bool-cases (is_empty p || contains p out)) [
  | inl skip ↦ rw skip (omega (arith, length-unique_from-le out paths))
  | inr fresh ↦
      rw fresh (
        omega
          (arith, length-unique_from-le (out ++ (p ∷ [])) paths, length-append {0} out (p ∷ [])))
]

-- Reading a tracked list back keeps its paths.
pub contains-normalize_paths :
    (p : Text) (paths : List Text)
    → length paths ≤ 32
    → is_empty p ≡ false
    → contains p paths ≡ true
    → contains p (normalize_paths paths) ≡ true
unfolding normalize_paths unique_ordered
contains-normalize_paths p paths short named h =
    rw (trim_paths_of_le (unique_from [] paths) (omega (arith, length-unique_from-le [] paths)))
      (unfold unique_ordered in rw ((unique_ordered_lem paths).1 p) (ground arith))

pub trim_paths-normalize_paths :
    (paths : List Text) → trim_paths (normalize_paths paths) ≡ normalize_paths paths
trim_paths-normalize_paths paths =
    trim_paths_of_le (normalize_paths paths) (length-normalize_paths-le paths)

-- A path at the end of a list of tracked size, and one more, survives the trimming.
pub contains-trim_paths-append :
    (p : Text) (paths : List Text)
    → length paths ≤ 32
    → contains p (trim_paths (paths ++ (p ∷ []))) ≡ true
unfolding trim_paths
contains-trim_paths-append p paths short =
    contains-drop_last p (length (paths ++ (p ∷ [])) - 32) paths
      (omega (arith, length-append {0} paths (p ∷ [])))

-- A path that is appended to a list of tracked size survives the trimming.
pub contains-trim_paths-append_unique :
    (p : Text) (paths : List Text)
    → is_empty p ≡ false
    → length paths ≤ 32
    → contains p (trim_paths (append_unique paths p)) ≡ true
unfolding append_unique
contains-trim_paths-append_unique p paths named short = elim (Bool-cases (contains p paths)) [
  | inl old ↦ rw (named, old) (rw (trim_paths_of_le paths short) old)
  | inr new ↦ rw (named, new) (contains-trim_paths-append p paths short)
]
