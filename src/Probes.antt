-- ===== src/Probes.antt =====
-- The probes that put cases through the built tools: bit addressing in Bits, the runner over them in Run, and the bounds
-- of relocations in Guard, and branches to literal addresses in Branch.
pub mod Bits
pub mod Run
pub mod Guard
pub mod Branch
