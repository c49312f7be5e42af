-- ===== src/Tests.antt =====
-- Runs of the models on small inputs.
mod Objects
mod Images
mod Harness
mod Instructions
mod Roms
mod Patches
mod Coverage
mod Archive
mod Generate
mod Probes
mod Watch
mod Release
mod Guard
mod Mutants
mod Branch
mod Report
