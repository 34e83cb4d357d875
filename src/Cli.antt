-- ===== src/Cli.antt =====
-- krep-cli: the pure parts of the command line.
pub mod Anchor
