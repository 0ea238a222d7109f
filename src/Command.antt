-- ===== src/Command.antt =====
-- The command parser (iruka_vfs/command_parser.py, iruka_vfs/parse_errors.py).
pub mod Errors
pub mod Quotes
pub mod Scan
pub mod Chain
pub mod Options
pub mod Tails
pub mod Heredoc
pub mod Tokens
pub mod Pipeline
pub mod Piping
pub mod Chaining
