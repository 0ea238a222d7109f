-- ===== src/Runtime/Nesting.antt =====
-- `find -exec` with two executors that agree on short commands.
use iruka_virtual_file_syste.Prelude.{
  ℕ, suc, ◌+◌, ◌≤◌, Option, none, some, List, [], ◌∷◌, ◌++◌, length, nat_eq, list_eq, ◌==◌, ◌≡◌,
  refl, ap, inl, inr, ◌⊎◌, contains, arith, Bool-cases, Option-cases, length-append,
}
use iruka_virtual_file_syste.Text.{Text, text}
use iruka_virtual_file_syste.Result.{Result-cases}
use iruka_virtual_file_syste.Runtime.World.{World, Externals, Artifacts, Outcome, texts}
use iruka_virtual_file_syste.Runtime.Targets.{resolve}
use iruka_virtual_file_syste.Paths.Resolve.{node_path}
use iruka_virtual_file_syste.Runtime.Find.{
  FindArgs, FindState, FindRead, find_args, find_error, between, after_name, after_type, in_exec,
  read_find_args, end_of_args, type_of, is_skipped, Round, run_on, round_of, lines, stop, fill_in,
  run_find_exec, find_done, find_below, exec_find, find_from, no_find_args, find_artifacts,
  resolve_find_matches,
}
use iruka_virtual_file_syste.Runtime.Texts.{is_option}
use mathlib.Core.Path.{subst}

-- Two executors agree on the commands of at most this length, run without input.
abbrev pub Agree :
    ℕ → (List Text → Text → World → Outcome) → (List Text → Text → World → Outcome) → Type 0
Agree n f g = (argv : List Text) (w : World) → length argv ≤ n → f argv [] w ≡ g argv [] w

length-fill_in : (path : Text) (tokens : List Text) → length (fill_in path tokens) ≡ length tokens
unfolding fill_in
length-fill_in path [] = refl
length-fill_in path (t ∷ ts) = ap suc (length-fill_in path ts)

Round-cases : (r : Round) → ((more : List Text) × (r ≡ lines more)) ⊎ (r ≡ stop)
Round-cases (lines more) = inl (more, refl)
Round-cases stop = inr refl

run_on-Agree :
    (f g : List Text → Text → World → Outcome) (tokens : List Text) (artifacts : Artifacts)
    (printed paths : List Text) (w : World)
    → Agree (length tokens) f g
    → run_on f tokens artifacts printed paths w ≡ run_on g tokens artifacts printed paths w
unfolding run_on
run_on-Agree f g tokens artifacts printed [] w same = refl
run_on-Agree f g tokens artifacts printed (path ∷ paths) w same =
    let one : f (fill_in path tokens) [] w ≡ g (fill_in path tokens) [] w =
      same (fill_in path tokens) w (rw (length-fill_in path tokens) (omega arith)) in
    elim (Result-cases (g (fill_in path tokens) [] w)) [
      | inl (e, q) ↦ rw (run_on, one, q) refl
      | inr ((result, w'), q) ↦ elim (Round-cases (round_of (fill_in path tokens) result)) [
        | inl (more, r) ↦
            rw (run_on, one, q, r)
              (run_on-Agree f g tokens artifacts (printed ++ more) paths w' same)
        | inr r ↦ rw (run_on, one, q, r) refl
      ]
    ]

-- The length of the command of `-exec`, and of the part that the loop is in.
abbrev exec_length : Option (List Text) → ℕ
exec_length none = 0
exec_length (some tokens) = length tokens

abbrev read_length : FindRead → ℕ
read_length (find_args a) = exec_length a.exec_tokens
read_length (find_error message) = 0

abbrev state_length : FindState → ℕ
state_length between = 0
state_length after_name = 0
state_length after_type = 0
state_length (in_exec tokens) = length tokens

find_done-Agree :
    (ext : Externals) (f g : List Text → Text → World → Outcome) (a : FindArgs) (path : Text)
    (matches : List Text) (w : World)
    → Agree (exec_length a.exec_tokens) f g
    → find_done ext f a path matches w ≡ find_done ext g a path matches w
unfolding find_done run_find_exec
find_done-Agree ext f g a path matches w same = elim (Option-cases a.exec_tokens) [
  | inl e ↦ rw (find_done, e) refl
  | inr (tokens, e) ↦ elim (Bool-cases (contains (text "{}") tokens)) [
    | inl there ↦
        rw (find_done, e, run_find_exec, there)
          (run_on-Agree f g tokens
            (find_artifacts path (length matches) a ++ (text "exec", texts tokens) ∷ []) [] matches
            w (λ argv u short. same argv u (rw e short)))
    | inr lacks ↦ rw (find_done, e, run_find_exec, lacks) refl
  ]
]

find_below-Agree :
    (ext : Externals) (f g : List Text → Text → World → Outcome) (a : FindArgs) (target : Text)
    (w : World)
    → Agree (exec_length a.exec_tokens) f g
    → find_below ext f a target w ≡ find_below ext g a target w
unfolding find_below
find_below-Agree ext f g a target w same = elim (Result-cases (resolve w target)) [
  | inl (e, q) ↦ rw (find_below, q) refl
  | inr (none, q) ↦ rw (find_below, q) refl
  | inr (some node, q) ↦
      elim (Result-cases (resolve_find_matches ext w.mirror node a.name_patterns a.type_filter)) [
        | inl (e, r) ↦ rw (find_below, q, r) refl
        | inr (matches, r) ↦ elim (Result-cases (node_path w.mirror node)) [
          | inl (e, p) ↦ rw (find_below, q, r, p) refl
          | inr (path, p) ↦ rw (find_below, q, r, p) (find_done-Agree ext f g a path matches w same)
        ]
      ]
]

-- The command of `-exec` is one of the arguments of `find`.
read_find_args-length :
    (n : ℕ) (state : FindState) (a : FindArgs) (args : List Text)
    → state_length state + length args ≤ n
    → exec_length a.exec_tokens ≤ n
    → read_length (read_find_args state a args) ≤ n
unfolding read_find_args end_of_args
read_find_args-length n between a [] room fits = fits
read_find_args-length n after_name a [] room fits = omega arith
read_find_args-length n after_type a [] room fits = omega arith
read_find_args-length n (in_exec tokens) a [] room fits = omega arith
read_find_args-length n after_name a (token ∷ args) room fits =
    read_find_args-length n between (record a { name_patterns = a.name_patterns ++ token ∷ [] })
      args (omega arith) fits
read_find_args-length n after_type a (token ∷ args) room fits =
    elim (Option-cases (type_of token)) [
      | inl e ↦ rw (read_find_args, e) (omega arith)
      | inr (t, e) ↦
          rw (read_find_args, e)
            (read_find_args-length n between (record a { type_filter = some t }) args (omega arith)
              fits)
    ]
read_find_args-length n (in_exec []) a (token ∷ args) room fits =
    elim (Bool-cases (token == text ";")) [
      | inr e ↦
          rw (read_find_args, e)
            (read_find_args-length n (in_exec (token ∷ [])) a args (omega arith) fits)
      | inl e ↦ rw (read_find_args, e) (omega arith)
    ]
read_find_args-length n (in_exec (t ∷ ts)) a (token ∷ args) room fits =
    elim (Bool-cases (token == text ";")) [
      | inr e ↦
          rw (read_find_args, e)
            (read_find_args-length n (in_exec (t ∷ (ts ++ token ∷ []))) a args
              (rw length-append (omega arith)) fits)
      | inl e ↦
          rw (read_find_args, e)
            (read_find_args-length n between (record a { exec_tokens = some (t ∷ ts) }) args
              (omega arith) (omega arith))
    ]
read_find_args-length n between a (token ∷ args) room fits =
    elim (Bool-cases (token == text "-name")) [
      | inl name ↦
          rw (read_find_args, name) (read_find_args-length n after_name a args (omega arith) fits)
      | inr b0 ↦ elim (Bool-cases (token == text "-type")) [
        | inl kind ↦
            rw (read_find_args, b0, kind)
              (read_find_args-length n after_type a args (omega arith) fits)
        | inr b1 ↦ elim (Bool-cases (token == text "-exec")) [
          | inl exec ↦ elim (Option-cases a.exec_tokens) [
            | inl e ↦
                rw (read_find_args, b0, b1, exec, e)
                  (read_find_args-length n (in_exec []) a args (omega arith) fits)
            | inr (tokens, e) ↦ rw (read_find_args, b0, b1, exec, e) (omega arith)
          ]
          | inr b2 ↦ elim (Bool-cases (is_skipped token)) [
            | inl skip ↦
                rw (read_find_args, b0, b1, b2, skip)
                  (read_find_args-length n between a args (omega arith) fits)
            | inr b3 ↦ elim (Bool-cases (is_option token)) [
              | inl option ↦ rw (read_find_args, b0, b1, b2, b3, option) (omega arith)
              | inr b4 ↦
                  rw (read_find_args, b0, b1, b2, b3, b4)
                    (read_find_args-length n between
                      (record a { positional = a.positional ++ token ∷ [] }) args (omega arith)
                      fits)
            ]
          ]
        ]
      ]
    ]

find_from-Agree :
    (ext : Externals) (f g : List Text → Text → World → Outcome) (a : FindArgs)
    (positional : List Text) (w : World)
    → Agree (exec_length a.exec_tokens) f g
    → find_from ext f a positional w ≡ find_from ext g a positional w
unfolding find_from
find_from-Agree ext f g a [] w same = find_below-Agree ext f g a (text ".") w same
find_from-Agree ext f g a (target ∷ []) w same = find_below-Agree ext f g a target w same
find_from-Agree ext f g a (p ∷ q ∷ rest) w same = refl

FindRead-cases :
    (r : FindRead)
    → ((message : Text) × (r ≡ find_error message)) ⊎ ((a : FindArgs) × (r ≡ find_args a))
FindRead-cases (find_error message) = inl (message, refl)
FindRead-cases (find_args a) = inr (a, refl)

pub exec_find-Agree :
    (ext : Externals) (f g : List Text → Text → World → Outcome) (args : List Text) (w : World)
    → Agree (length args) f g
    → exec_find ext f args w ≡ exec_find ext g args w
unfolding exec_find
exec_find-Agree ext f g args w same =
    elim (FindRead-cases (read_find_args between no_find_args args)) [
      | inl (message, q) ↦ rw (exec_find, q) refl
      | inr (a, q) ↦
          let fits : exec_length a.exec_tokens ≤ length args =
            subst (λ r. read_length r ≤ length args) q
              (read_find_args-length (length args) between no_find_args args (omega arith)
                (omega arith)) in
          rw (exec_find, q)
            (find_from-Agree ext f g a a.positional w (λ argv u short. same argv u (omega arith)))
    ]
