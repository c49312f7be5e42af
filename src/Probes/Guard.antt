-- ===== src/Probes/Guard.antt =====
-- tb/sim/run-guard.py: the objects that it reads and changes in Object, the probes and `main` in Run.
pub mod Object
pub mod Run
