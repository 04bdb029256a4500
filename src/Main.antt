-- ===== src/Main.antt =====
-- cmd/sprawler/main.go: a run from the configuration to the archive.
mod Defs
mod Order
mod Tests
