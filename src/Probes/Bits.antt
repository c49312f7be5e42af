-- ===== src/Probes/Bits.antt =====
-- tb/isa/bits.py: the cases of the bit addressing, as its three tables have them.
pub mod Fold
use binutils_mcs.Base.{ℕ, Option, none, some, List, [], ◌∷◌}
use binutils_mcs.Base.Bytes.{codes}
use binutils_mcs.Base.Text.{Text}

-- A case that is assembled alone, for its bytes in hexadecimal or for a complaint.
pub record AsmCase : Type 0 where
  pub name : Text
  pub src : Text
  pub want : Option Text
  pub msg : Option Text
  pub section : Text

-- A case that is linked with BDVAR at an address.
pub record LinkCase : Type 0 where
  pub name : Text
  pub addr : ℕ
  pub off : ℕ
  pub want : Option ℕ
  pub msg : Option Text

-- `acase` and `dcase`
abbrev pub acase : Text → Text → Option Text → Option Text → Text → AsmCase
acase n s w m sec = record { name = n; src = s; want = w; msg = m; section = sec }

abbrev pub lcase : Text → ℕ → ℕ → Option ℕ → Option Text → LinkCase
lcase n a o w m = record { name = n; addr = a; off = o; want = w; msg = m }

-- NOTBIT and NOTRANGE
abbrev pub not_bit : Text
not_bit = codes "not bit addressable"

abbrev pub not_range : Text
not_range = codes "out of bit range"

abbrev pub asm_cases : List AsmCase
asm_cases =
    acase (codes "dot-ram-first") (codes "mov c,0x20.0") (some (codes "a2 00")) none (codes ".text")
    ∷ acase (codes "dot-ram-first-7") (codes "mov c,0x20.7") (some (codes "a2 07")) none
        (codes ".text")
    ∷ acase (codes "dot-ram-last") (codes "mov c,0x2f.7") (some (codes "a2 7f")) none
        (codes ".text")
    ∷ acase (codes "dot-ram-last-0") (codes "mov c,0x2f.0") (some (codes "a2 78")) none
        (codes ".text")
    ∷ acase (codes "dot-ram-mid") (codes "setb 0x21.3") (some (codes "d2 0b")) none (codes ".text")
    ∷ acase (codes "dot-below-ram") (codes "mov c,0x1f.7") none (some not_bit) (codes ".text")
    ∷ acase (codes "dot-above-ram") (codes "mov c,0x30.0") none (some not_bit) (codes ".text")
    ∷ acase (codes "dot-gap") (codes "mov c,0x7f.0") none (some not_bit) (codes ".text")
    ∷ acase (codes "dot-sfr-first") (codes "mov c,0x80.0") (some (codes "a2 80")) none
        (codes ".text")
    ∷ acase (codes "dot-sfr-first-7") (codes "mov c,0x80.7") (some (codes "a2 87")) none
        (codes ".text")
    ∷ acase (codes "dot-sfr-last") (codes "mov c,0xf8.7") (some (codes "a2 ff")) none
        (codes ".text")
    ∷ acase (codes "dot-sfr-mid") (codes "setb 0x88.1") (some (codes "d2 89")) none (codes ".text")
    ∷ acase (codes "dot-sfr-unalign") (codes "mov c,0x81.0") none (some not_bit) (codes ".text")
    ∷ acase (codes "dot-sfr-unalign2") (codes "mov c,0xf9.0") none (some not_bit) (codes ".text")
    ∷ acase (codes "dot-sfr-past") (codes "mov c,0xff.7") none (some not_bit) (codes ".text")
    ∷ acase (codes "b2b-ram-first") (codes "setb B2B(0x20,0)") (some (codes "d2 00")) none
        (codes ".text")
    ∷ acase (codes "b2b-ram-last") (codes "setb B2B(0x2f,7)") (some (codes "d2 7f")) none
        (codes ".text")
    ∷ acase (codes "b2b-below-ram") (codes "setb B2B(0x1f,0)") none (some not_range) (codes ".text")
    ∷ acase (codes "b2b-above-ram") (codes "setb B2B(0x30,0)") none (some not_range) (codes ".text")
    ∷ acase (codes "b2b-gap") (codes "setb B2B(0x7f,0)") none (some not_range) (codes ".text")
    ∷ acase (codes "b2b-sfr-first") (codes "setb B2B(0x80,0)") (some (codes "d2 80")) none
        (codes ".text")
    ∷ acase (codes "b2b-sfr-mid") (codes "setb B2B(0x88,1)") (some (codes "d2 89")) none
        (codes ".text")
    ∷ acase (codes "b2b-sfr-last") (codes "setb B2B(0xf8,7)") (some (codes "d2 ff")) none
        (codes ".text")
    ∷ acase (codes "b2b-past-ram-top") (codes "setb B2B(0x2f,9)") none (some not_range)
        (codes ".text")
    ∷ acase (codes "b2b-ram-past-bit7") (codes "setb B2B(0x20,8)") none (some not_range)
        (codes ".text")
    ∷ acase (codes "b2b-sfr-past-bit7") (codes "setb B2B(0xf8,8)") none (some not_range)
        (codes ".text")
    ∷ acase (codes "b2b-sfr-unalign") (codes "setb B2B(0x84,1)") none (some not_range)
        (codes ".text")
    ∷ acase (codes "b2b-sfr-top") (codes "setb B2B(0xff,0)") none (some not_range) (codes ".text")
    ∷ acase (codes "b2b-sym-ram") (codes "BD = 0x20\n\tsetb B2B(BD,1)") (some (codes "d2 01")) none
        (codes ".text")
    ∷ acase (codes "b2b-sym-ram-top") (codes "BD = 0x2f\n\tsetb B2B(BD,7)") (some (codes "d2 7f"))
        none (codes ".text")
    ∷ acase (codes "b2b-sym-sfr") (codes "BD = 0x88\n\tsetb B2B(BD,1)") (some (codes "d2 89")) none
        (codes ".text")
    ∷ acase (codes "b2b-sym-bad") (codes "BD = 0x40\n\tsetb B2B(BD,0)") none (some not_range)
        (codes ".text")
    ∷ acase (codes "b2b-sym-unalign") (codes "BD = 0x84\n\tsetb B2B(BD,1)") none (some not_range)
        (codes ".text")
    ∷ acase (codes "b2b-fwd-ram") (codes "setb B2B(BD,1)\nBD = 0x20") (some (codes "d2 01")) none
        (codes ".text")
    ∷ acase (codes "b2b-fwd-ram-top") (codes "setb B2B(BD,7)\nBD = 0x2f") (some (codes "d2 7f"))
        none (codes ".text")
    ∷ acase (codes "b2b-fwd-sfr") (codes "setb B2B(BD,1)\nBD = 0x88") (some (codes "d2 89")) none
        (codes ".text")
    ∷ acase (codes "b2b-fwd-sfr-last") (codes "setb B2B(BD,7)\nBD = 0xf8") (some (codes "d2 ff"))
        none (codes ".text")
    ∷ acase (codes "b2b-fwd-below") (codes "setb B2B(BD,0)\nBD = 0x1f") none (some not_bit)
        (codes ".text")
    ∷ acase (codes "b2b-fwd-unalign") (codes "setb B2B(BD,1)\nBD = 0x84") none (some not_bit)
        (codes ".text")
    ∷ acase (codes "b2b-fwd-gap") (codes "setb B2B(BD,0)\nBD = 0x40") none (some not_bit)
        (codes ".text")
    ∷ acase (codes "b2b-fwd-past-top") (codes "setb B2B(BD,9)\nBD = 0x2f") none (some not_range)
        (codes ".text")
    ∷ acase (codes "b2b-fwd-ram-past-bit7") (codes "setb B2B(BD,8)\nBD = 0x20") none
        (some not_range) (codes ".text")
    ∷ acase (codes "b2b-fwd-sfr-past-bit7") (codes "setb B2B(BD,8)\nBD = 0xf8") none
        (some not_range) (codes ".text")
    ∷ []

abbrev pub dir_cases : List AsmCase
dir_cases =
    acase (codes "bit-0") (codes ".bitdata\nBIT0:\t.bit 0") (some (codes "00")) none
      (codes ".bitdata")
    ∷ acase (codes "bit-1") (codes ".bitdata\nBIT1:\t.bit 1") (some (codes "01")) none
        (codes ".bitdata")
    ∷ acase (codes "bit-2") (codes ".bitdata\nBIT2:\t.bit 2") none
        (some (codes "not in range 0..1")) (codes ".bitdata")
    ∷ acase (codes "bit-neg") (codes ".bitdata\nBITN:\t.bit -1") none
        (some (codes "not in range 0..1")) (codes ".bitdata")
    ∷ []

abbrev pub link_cases : List LinkCase
link_cases =
    lcase (codes "link-ram-first") 0x20 0 (some 0x00) none
    ∷ lcase (codes "link-ram-last") 0x2f 7 (some 0x7f) none
    ∷ lcase (codes "link-ram-mid") 0x21 3 (some 0x0b) none
    ∷ lcase (codes "link-sfr-first") 0x80 0 (some 0x80) none
    ∷ lcase (codes "link-sfr-mid") 0x88 1 (some 0x89) none
    ∷ lcase (codes "link-sfr-last") 0xf8 7 (some 0xff) none
    ∷ lcase (codes "link-below-ram") 0x10 0 none (some (codes "out of range"))
    ∷ lcase (codes "link-above-ram") 0x30 0 none (some (codes "out of range"))
    ∷ lcase (codes "link-gap") 0x7f 0 none (some (codes "out of range"))
    ∷ lcase (codes "link-past-ram-top") 0x2f 9 none (some (codes "relocation truncated"))
    ∷ lcase (codes "link-ram-past-bit7") 0x20 8 none (some (codes "relocation truncated"))
    ∷ lcase (codes "link-sfr-past-bit7") 0xf8 8 none (some (codes "relocation truncated"))
    ∷ lcase (codes "link-offchip") 0x100 1 none (some (codes "out of range"))
    ∷ []
