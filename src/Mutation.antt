-- ===== src/Mutation.antt =====
-- The mutation harness tb/mutation/: the runner of the mutants in Run, its `main`
-- in Main, and what the stages of a full run catch in Coverage. The generator of the mutants: the masking of
-- comments and the sample in Generate, the lines that are exposed in Scopes, its `main` in Mutants. Two runs are
-- compared in Report.
pub mod Run
pub mod Main
pub mod Coverage
pub mod Generate
pub mod Scopes
pub mod Mutants
pub mod Report
