-- ===== src/Elf.antt =====
-- The converters: `i51elf_le2be.py` in Convert, `i51elf_sym_uc.py` in Symbols and `i51elf_ar.py` in Archive, over the
-- integer fields of Struct.
pub mod Struct
pub mod Convert
pub mod Symbols
pub mod Archive
