-- ===== src/Oracle.antt =====
-- tb/hexoracle.py: the produced ROMs against the 2001 images, every differing byte put into one of
-- six classes, and the counts held against the recorded ones.
pub mod Classify
pub mod Expect
