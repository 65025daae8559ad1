-- ===== src/Command.antt =====
-- cmd/vestige: what the commands compute and print, on an opened repository.
pub mod Diff
pub mod Find
pub mod Labels
pub mod Prune
