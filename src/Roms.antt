-- ===== src/Roms.antt =====
-- tb/romdiff.py: produced ROMs against the reference copies. The comparison of two ROMs is in Diff, the
-- gate over the recorded outcomes and `main` in Gate.
pub mod Diff
pub mod Gate
