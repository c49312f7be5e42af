-- ===== src/Watch.antt =====
-- tb/upstream_watch.py: the watch for a new release of binutils. The pin and the listing are Releases, the
-- log of patch is Log, the application of the patches is Patches, and `main` is Run.
pub mod Releases
pub mod Log
pub mod Patches
pub mod Run
