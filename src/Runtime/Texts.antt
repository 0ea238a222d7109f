-- ===== src/Runtime/Texts.antt =====
-- `wc`, `sort`, `head`, `basename` and `dirname` of `runtime/fs_commands.py`, and `cat` of
-- `runtime/executor.py`: commands that only read.
use iruka_virtual_file_syste.Prelude.{
  ℕ, zero, suc, ◌+◌, Bool, true, false, not, ◌&&◌, Option, none, some, List, [], ◌∷◌, ◌++◌, ℤ, pos,
  negsuc, keep, all_of, take, nat_eq, list_eq, ◌==◌, if◌then◌else◌,
}
use iruka_virtual_file_syste.Text.{Text, text, join, starts_with}
use iruka_virtual_file_syste.Text.Lines.{splitlines}
use iruka_virtual_file_syste.Text.Number.{show_nat, read_digits, is_digit}
use iruka_virtual_file_syste.Text.Strip.{strip, rstrip_char}
use iruka_virtual_file_syste.Result.{Result, ok, raise, ◌>>=◌}
use iruka_virtual_file_syste.Sorting.{sort_by, text_leb}
use iruka_virtual_file_syste.Paths.Resolve.{node_path}
use iruka_virtual_file_syste.Runtime.World.{
  World, Externals, Artifacts, text_value, number, texts, Outcome, succeed, fail, get_node_content,
}
use iruka_virtual_file_syste.Runtime.Targets.{resolve, format_missing_path_error}
use iruka_virtual_file_syste.Runtime.Files.{file_only}

abbrev pub newline : Text
newline = 10 ∷ []

-- `text.count("\n")`
unfoldable pub count_lines : Text → ℕ
count_lines [] = 0
count_lines (c ∷ s) = (if c == 10 then 1 else 0) + count_lines s

-- Files that a command reads: their paths and contents, or the first one that is missing.
pub data Contents : Type 0 where
  contents : List (Text × Text) → Contents
  missing : Text → Contents

unfoldable pub read_files : List Text → World → Result Contents
read_files [] w = ok (contents [])
read_files (target ∷ targets) w = elim (resolve w target) [
  | raise e ↦ raise e
  | ok node ↦ elim (file_only node) [
    | none ↦ ok (missing target)
    | some n ↦ elim (node_path w.mirror n) [
      | raise e ↦ raise e
      | ok path ↦ elim (read_files targets w) [
        | raise e ↦ raise e
        | ok (missing t) ↦ ok (missing t)
        | ok (contents rest) ↦ ok (contents ((path, get_node_content w.mirror n) ∷ rest))
      ]
    ]
  ]
]

unfoldable pub paths_of : List (Text × Text) → List Text
paths_of [] = []
paths_of ((path, content) ∷ files) = path ∷ paths_of files

unfoldable pub lines_of : List (Text × Text) → List Text
lines_of [] = []
lines_of ((path, content) ∷ files) = splitlines content ++ lines_of files

unfoldable pub contents_of : List (Text × Text) → List Text
contents_of [] = []
contents_of ((path, content) ∷ files) = content ∷ contents_of files

-- A command over the files that its operands name.
unfoldable pub with_files :
    Externals → Text → List Text → World → (List (Text × Text) → Outcome) → Outcome
with_files ext command targets w continue = elim (read_files targets w) [
  | raise e ↦ raise e
  | ok (contents files) ↦ continue files
  | ok (missing target) ↦ do
    message ← format_missing_path_error ext w command target false
    fail message [] w
]

-- `cat` of `exec_argv`
unfoldable pub exec_cat : Externals → List Text → Text → World → Outcome
exec_cat ext [] input_text w = succeed input_text [] w
exec_cat ext (t ∷ ts) input_text w = with_files ext (text "cat") (t ∷ ts) w λ files.
    succeed (join newline (contents_of files)) ((text "files", texts (paths_of files)) ∷ []) w

-- One line of `wc` for each file, and the sum.
unfoldable pub count_files_lines : List (Text × Text) → List Text × ℕ
count_files_lines [] = ([], 0)
count_files_lines ((path, content) ∷ files) =
    let (lines, total) = count_files_lines files in
    ((show_nat (count_lines content) ++ (text " " ++ path)) ∷ lines, count_lines content + total)

-- `f"{total} total"` for more than one file
unfoldable pub total_line : List (Text × Text) → ℕ → List Text
total_line [] total = []
total_line (f ∷ []) total = []
total_line (f ∷ g ∷ files) total = (show_nat total ++ text " total") ∷ []

unfoldable pub is_option : Text → Bool
is_option arg = starts_with arg (text "-")

unfoldable pub stdin_source : Artifacts
stdin_source = (text "source", text_value (text "stdin")) ∷ []

unfoldable pub wc_files : Externals → List Text → Text → World → Outcome
unfolding count_files_lines total_line stdin_source
wc_files ext [] input_text w = succeed (show_nat (count_lines input_text)) stdin_source w
wc_files ext (t ∷ ts) input_text w = with_files ext (text "wc") (t ∷ ts) w λ files.
    let (lines, total) = count_files_lines files in
    succeed (join newline (lines ++ total_line files total))
      ((text "files", texts (t ∷ ts)) ∷ (text "total", number (pos total)) ∷ []) w

unfoldable pub exec_wc : Externals → List Text → Text → World → Outcome
unfolding is_option wc_files
exec_wc ext args input_text w =
    if all_of (λ option. option == text "-l") (keep is_option args)
    then wc_files ext (keep (λ arg. not (is_option arg)) args) input_text w
    else fail (text "wc: only -l is supported. Use grep -c PATTERN <paths> to count matches.") [] w

-- The first option, if there is one.
unfoldable pub first_option : List Text → Option Text
unfolding is_option
first_option [] = none
first_option (arg ∷ args) = if is_option arg then some arg else first_option args

unfoldable pub sort_files : Externals → List Text → Text → World → Outcome
unfolding stdin_source
sort_files ext [] input_text w =
    succeed (join newline (sort_by text_leb (splitlines input_text))) stdin_source w
sort_files ext (t ∷ ts) input_text w = with_files ext (text "sort") (t ∷ ts) w λ files.
    succeed (join newline (sort_by text_leb (lines_of files)))
      ((text "files", texts (paths_of files)) ∷ []) w

unfoldable pub exec_sort : Externals → List Text → Text → World → Outcome
unfolding first_option sort_files
exec_sort ext args input_text w = elim (first_option args) [
  | some option ↦ fail (text "sort: unsupported option: " ++ option) [] w
  | none ↦ sort_files ext args input_text w
]

-- `int(s)` of decimal digits with white space and a sign around them; underscores between digits
-- are not read
unfoldable pub read_int : Text → Option ℤ
read_int s = signed (strip s)
  where
    digits : Text → Option ℕ
    digits [] = none
    digits (c ∷ t) = if all_of is_digit (c ∷ t) then some (read_digits 0 (c ∷ t)).0 else none

    negated : ℕ → ℤ
    negated zero = pos 0
    negated (suc n) = negsuc n

    minus : Option ℕ → Option ℤ
    minus none = none
    minus (some n) = some (negated n)

    plus : Option ℕ → Option ℤ
    plus none = none
    plus (some n) = some (pos n)

    signed : Text → Option ℤ
    signed [] = none
    signed (c ∷ t) =
        if c == b'-'
        then minus (digits t)
        else if c == b'+'
        then plus (digits t)
        else plus (digits (c ∷ t))

-- What `head` reads from its arguments: a count and the targets, or a message.
pub data HeadArgs : Type 0 where
  head_args : ℕ → List Text → HeadArgs
  head_error : Text → HeadArgs

-- `token.startswith("-") and len(token) > 1 and token[1:].isdigit()`: the number, if so
unfoldable pub dash_number : Text → Option ℕ
dash_number [] = none
dash_number (c ∷ []) = none
dash_number (c ∷ d ∷ s) =
    if c == b'-' && all_of is_digit (d ∷ s) then some (read_digits 0 (d ∷ s)).0 else none

-- The loop of `exec_head` over its arguments.
unfoldable pub read_head_args : ℕ → List Text → List Text → HeadArgs
unfolding dash_number is_option
read_head_args count targets [] = head_args count targets
read_head_args count targets (token ∷ []) = elim (token == text "-n") [
  | true ↦ head_error (text "head: missing line count after -n")
  | false ↦ elim (dash_number token) [
    | some n ↦ head_args n targets
    | none ↦
        if is_option token
        then head_error (text "head: unsupported option: " ++ token)
        else head_args count (targets ++ token ∷ [])
  ]
]
read_head_args count targets (token ∷ next ∷ args) = elim (token == text "-n") [
  | true ↦ elim (read_int next) [
    | some (pos n) ↦ read_head_args n targets args
    | some (negsuc n) ↦ head_error (text "head: invalid line count: " ++ next)
    | none ↦ head_error (text "head: invalid line count: " ++ next)
  ]
  | false ↦ elim (dash_number token) [
    | some n ↦ read_head_args n targets (next ∷ args)
    | none ↦ elim (is_option token) [
      | true ↦ head_error (text "head: unsupported option: " ++ token)
      | false ↦ read_head_args count (targets ++ token ∷ []) (next ∷ args)
    ]
  ]
]

unfoldable pub head_files : Externals → ℕ → List Text → Text → World → Outcome
head_files ext count [] input_text w =
    succeed (join newline (take count (splitlines input_text)))
      ((text "source", text_value (text "stdin")) ∷ (text "line_count", number (pos count)) ∷ []) w
head_files ext count (t ∷ ts) input_text w = with_files ext (text "head") (t ∷ ts) w λ files.
    succeed (join newline (take count (lines_of files)))
      ((text "files", texts (paths_of files)) ∷ (text "line_count", number (pos count)) ∷ []) w

unfoldable pub exec_head : Externals → List Text → Text → World → Outcome
unfolding read_head_args head_files
exec_head ext args input_text w = elim (read_head_args 10 [] args) [
  | head_error message ↦ fail message [] w
  | head_args count targets ↦ head_files ext count targets input_text w
]

unfoldable pub or_target : Text → Text → Text
or_target [] target = target
or_target (c ∷ s) target = c ∷ s

unfoldable pub exec_basename : Externals → List Text → World → Outcome
unfolding or_target
exec_basename ext (target ∷ []) w =
    succeed
      (if target == text "/"
        then text "/"
        else ext.path_name (or_target (rstrip_char b'/' target) target))
      ((text "path", text_value target) ∷ []) w
exec_basename ext [] w = fail (text "basename: require exactly one path") [] w
exec_basename ext (a ∷ b ∷ rest) w = fail (text "basename: require exactly one path") [] w

unfoldable pub exec_dirname : Externals → List Text → World → Outcome
unfolding or_target
exec_dirname ext (target ∷ []) w =
    succeed (if target == text "/" then text "/" else or_target (ext.path_parent target) (text "."))
      ((text "path", text_value target) ∷ []) w
exec_dirname ext [] w = fail (text "dirname: require exactly one path") [] w
exec_dirname ext (a ∷ b ∷ rest) w = fail (text "dirname: require exactly one path") [] w
