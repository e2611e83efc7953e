-- ===== src/Cli/Args.antt =====
-- src/bas/cli/args.c: a line becomes an array of arguments. Word reads one argument, Brace and
-- Wildcard expand it, Parse is the whole.
pub mod Word
pub mod Brace
pub mod Wildcard
pub mod Parse
