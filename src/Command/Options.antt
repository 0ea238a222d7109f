-- ===== src/Command/Options.antt =====
-- `parse_options` of `command_parser.py`.
use iruka_virtual_file_syste.Prelude.{
  true, false, Option, none, some, List, [], ◌∷◌, ◌++◌, contains, nat_eq, list_eq, if◌then◌else◌,
}
use iruka_virtual_file_syste.Text.{Text, text, join, starts_with}
use iruka_virtual_file_syste.Dict.{Dict, put}

-- `values`: the options with a value, "flags", and "_".
pub record Options : Type 0 where
  pub values : Dict Text Text
  pub flags : List Text
  pub positional : List Text

-- The option `token` ends: it has the parts after it as its value, or is a flag without parts.
unfoldable pub end_option : Text → List Text → Options → Options
end_option token [] o =
    if contains token o.flags then o else record o { flags = o.flags ++ token ∷ [] }
end_option token (p ∷ ps) o = record o { values = put token (join (text " ") (p ∷ ps)) o.values }

-- The loop, inside an option with the parts so far or before the first option.
unfoldable pub options_from : Option (Text × List Text) → Options → List Text → Options
unfolding end_option
options_from none o [] = o
options_from (some (token, parts)) o [] = end_option token parts o
options_from none o (arg ∷ args) = elim (starts_with arg (text "--")) [
  | true ↦ options_from (some (arg, [])) o args
  | false ↦ options_from none (record o { positional = o.positional ++ arg ∷ [] }) args
]
options_from (some (token, parts)) o (arg ∷ args) = elim (starts_with arg (text "--")) [
  | true ↦ options_from (some (arg, [])) (end_option token parts o) args
  | false ↦ options_from (some (token, parts ++ arg ∷ [])) o args
]

unfoldable pub parse_options : List Text → Options
unfolding options_from
parse_options args = options_from none (record { values = []; flags = []; positional = [] }) args
