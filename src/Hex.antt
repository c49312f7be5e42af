-- ===== src/Hex.antt =====
-- Intel HEX records, as the instruction gate reads them (`hex_payload` and `read_table` of
-- tb/isa_check.py) and as the ROM oracle does (`read_ihex` of tb/hexoracle.py).
pub mod Digits
pub mod Payload
pub mod Image
