-- ===== src/Command/Quotes.antt =====
-- The quoting that the scanners of `command_parser.py` share: `in_single`, `in_double`, `escaped`.
use iruka_virtual_file_syste.Prelude.{
  ℕ, Bool, true, false, not, ◌&&◌, ◌||◌, Option, none, some, ◌==◌, nat_eq, if◌then◌else◌,
}

pub record Quotes : Type 0 where
  pub in_single : Bool
  pub in_double : Bool
  pub escaped : Bool

abbrev pub unquoted : Quotes
unquoted = record { in_single = false; in_double = false; escaped = false }

abbrev pub is_quoted : Quotes → Bool
is_quoted q = q.in_single || q.in_double

-- The state after a character that the quoting takes, `none` for any other character. A backslash
-- also escapes inside single quotes.
unfoldable pub quote_step : Quotes → ℕ → Option Quotes
quote_step q c =
    if q.escaped
    then some (record q { escaped = false })
    else if c == b'\\'
    then some (record q { escaped = true })
    else if c == b'\'' && not q.in_double
    then some (record q { in_single = not q.in_single })
    else if c == b'"' && not q.in_single
    then some (record q { in_double = not q.in_double })
    else none
