-- ===== src/Cli.antt =====
-- src/cli/cli.c, src/cli/misc.c and src/toggle.c: the command line.
pub mod Table
pub mod Dispatch
pub mod Names
pub mod Perform
