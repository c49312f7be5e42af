-- ===== src/Release.antt =====
-- tb/release_manifest.py: what is checked of one archive in Archive, the assembly of a release in Assets.
pub mod Archive
pub mod Assets
