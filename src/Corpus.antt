-- ===== src/Corpus.antt =====
-- The gate over the instruction table, tb/isa_check.py: the disassembly in Disasm, relative branches
-- in Branch, the stages in Stages,
-- `main` in Main and the rewriting of tb/dialect.py in Dialect. The table itself is read by Hex.Payload.
pub mod Disasm
pub mod Branch
pub mod Stages
pub mod Dialect
pub mod Main
