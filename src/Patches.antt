-- ===== src/Patches.antt =====
-- tb/fixhunks.py: the hunk headers and blob hashes of a patch that only adds files. The reader of the
-- patch is in Hunks, the rewriting in Fix.
pub mod Hunks
pub mod Fix
