-- ===== src/Tests/Archive.antt =====
-- An archive of an armap of one symbol and of a member of three bytes that is no object.
use binutils_mcs.Base.{◌≡◌, ◌≢◌, refl, some, [], ◌∷◌, ◌++◌, ok, err, length}
use binutils_mcs.Base.Bytes.{Bytes, codes, slice, splice}
use binutils_mcs.Base.Text.{strip, lstrip, is_space, rev_onto}
use binutils_mcs.Base.Decimal.{read_int, read_digits}
use binutils_mcs.Elf.Struct.{unpack_be, be_value}
use binutils_mcs.Elf.Symbols.{upper}
use binutils_mcs.Elf.Archive.{exhausted, ar_magic, convert_archive}
use binutils_mcs.Elf.Archive.Layout.{IsConverted, convert_archive-IsConverted}
use binutils_mcs.Elf.Archive.Ends.{convert_archive-ends}

abbrev old : Bytes
old =
    codes "!<arch>\n"
    ++ codes "/               993478822   500   100   100644  10        `\n"
    ++ 0 ∷ 0 ∷ 0 ∷ 1 ∷ 0 ∷ 0 ∷ 0 ∷ 72 ∷ b'a' ∷ 0 ∷ []
    ++ codes "a.txt/          993478822   500   100   100644  3         `\nabc\n"

abbrev new : Bytes
new =
    codes "!<arch>\n"
    ++ codes "/               0           0     0     0       10        `\n"
    ++ 0 ∷ 0 ∷ 0 ∷ 1 ∷ 0 ∷ 0 ∷ 0 ∷ 72 ∷ b'A' ∷ 0 ∷ []
    ++ codes "a.txt/          0           0     0     644     3         `\nabc\n"

run : convert_archive old ≡ ok (some new)
unfolding convert_archive slice splice strip lstrip is_space rev_onto read_int read_digits unpack_be
    be_value upper
run = refl

convert_archive-IsConverted_example :
    (length new ≡ length old) × (slice new 0 8 ≡ ar_magic) × IsConverted old new 8
convert_archive-IsConverted_example = convert_archive-IsConverted old run

convert_archive-ends_example : convert_archive old ≢ err exhausted
convert_archive-ends_example = convert_archive-ends old
