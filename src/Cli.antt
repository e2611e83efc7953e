-- ===== src/Cli.antt =====
-- src/bas/cli: the option parser.
pub mod Program
pub mod Alloc
pub mod Args
pub mod OptParser
pub mod CliParser
