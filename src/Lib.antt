-- ===== src/Lib.antt =====
-- Models and theorems for the test bench of binutils-mcs51, the Python scripts under tb/.
--
-- The bench holds the port of GNU binutils to the 8051 against what the tools of 2001 produced and
-- against tables of instructions. Its scripts are programs of their own, which the Makefile calls
-- one behind the other. They share no state but the files that they read and write.
--
-- Parts and files:
--   tb/i51elf_le2be.py, Elf.Convert: `convert_elf` over the bytes of an object. The runs of
--     unpack-and-pack lines are `swap_fields` with the widths of the fields; the loops over section
--     headers and table entries are recursion on the count, with the `break` of the source.
--   tb/i51elf_sym_uc.py, Elf.Symbols: `Elf.__init__` is `open_elf`, the generator `sections` the
--     list of what it yields, `uppercase_symbols` the pass over symbol tables. `NotAnObject` and
--     what `struct.unpack` and an index raise are values.
--   tb/i51elf_ar.py, Elf.Archive: `convert_archive` with `convert_member`, over the bytes of an archive. The
--     loop over the members has the length of the archive for fuel. A size field below zero, at
--     which the script may go round forever, ends the model in a value of its own.
--   tb/isa_check.py: `hex_payload` and `read_table`, the golden column of the instruction tables, are
--     Hex.Payload; the reading of a disassembly is Corpus.Disasm, branch comments and their labels
--     are Corpus.Branch, the three stages Corpus.Stages, and `main` up to the exit status is
--     Corpus.Main. The programs as-new, objcopy and objdump are parameters.
--   tb/dialect.py, Corpus.Dialect: the rules that translate a line of ASEM-51, on texts.
--   tb/hexoracle.py: `read_ihex` is Hex.Image, `classify` is Oracle.Classify, the table `EXPECT` and
--     the loop of `main` up to the exit status are Oracle.Expect. The files that exist are two
--     functions from project names.
--   tb/romdiff.py: the comparison of two images and the byte map are Roms.Diff, `gate` and `main` are
--     Roms.Gate. The files of a project are functions from its name.
--   tb/fixhunks.py: `split_patch`, `walk` and the bodies of the hunks are Patches.Hunks, `process` and
--     `main` are Patches.Fix. The files are a function from paths; SHA-1 is a parameter.
--   tb/mutation/run.py: `Harness` with `save`, `restore` and `apply`, `gate`, and the loop over the
--     mutants are Mutation.Run, the rest of `main` is Mutation.Main. `make` is a program outside: two
--     parameters stand for it, which see the source tree and change all but the tree.
--   tb/mutation/coverage.py, Mutation.Coverage: the rows of a full matrix, the dictionaries by
--     stage and the relation of two kill sets.
--   tb/mutation/gen.py: `mask_comments` with `_literal_end`, and `spread` are Mutation.Generate, `functions` and
--     `scoped_lines` are Mutation.Scopes, and `main` is Mutation.Mutants, with the operators for arguments.
--   tb/isa/bits.py and tb/sim/run-bits.py: the tables of cases are Probes.Bits, the runner over them up
--     to the exit status is Probes.Run. The programs as-new, ld-new and objcopy are parameters.
--   tb/upstream_watch.py: the pin, the listing and the fetches are Watch.Releases, the log of patch is Watch.Log,
--     the verdict Watch.Patches, and `main` up to what it reports is Watch.Run. Make, the server, tar, patch
--     and SHA-256 are the fields of a record.
--   tb/release_manifest.py: `check_archive` is Release.Archive, `main` up to the exit status and the files
--     that it writes Release.Assets. The matrix behind the YAML library, the archive libraries, the walk
--     over the downloads and SHA-256 are parameters.
--   tb/sim/run-guard.py: the objects that it reads and the move of an offset are Probes.Guard.Object, the probes
--     and `main` up to the exit status Probes.Guard.Run, with as-new and ld-new as parameters.
--   tb/isa/branch.py and tb/sim/run-branch.py, Probes.Branch: the table of literal branches and the runner over it up
--     to the exit status.
--   tb/mutation/report.py, Mutation.Report: the rates and the comparison of two runs.
--   Base carries lists, bytes, texts, the pieces of regular expressions, integers, decimal numbers, dictionaries and results; Elf.Struct the
--     fields of `struct.pack` and `struct.unpack`; Hex.Digits the writing of hexadecimal; Tests the
--     runs on concrete inputs.
--
-- A dictionary is an association list in the order of the first insertions; a set of texts is a list
-- without repetition. Numbers are native and have no bound; a field of a header is bounded by the
-- bytes that it is read from, and where a script takes a sum modulo 256 so does the model. All
-- other loops run over a list or over a count that the source takes from the data.
--
-- Not modelled: messages, printed tables, argument parsing, file access and file times; the Makefile
-- and the shell scripts; the patches under mcs51/, which are C code of another project; and the
-- scripts tb/doctruth.py, the other scripts of tb/sim/, and the operators of
-- tb/mutation/gen.py.
-- Left out inside what is modelled: the exception of writing a mutated file whose text is beyond latin-1, and negative
-- codes of stages in a file of results.
pub mod Base
pub mod Elf
pub mod Hex
pub mod Oracle
pub mod Corpus
pub mod Release
pub mod Roms
pub mod Patches
pub mod Probes
pub mod Mutation
pub mod Watch
pub mod Tests
