-- ===== src/Tests/Patches.antt =====
-- A patch of one file with two lines.
use binutils_mcs.Base.{◌≡◌, refl, false, Option, none, some, [], ◌∷◌, ◌++◌, map, if◌then◌else◌, ok}
use binutils_mcs.Base.Bytes.{Bytes, codes, equal}
use binutils_mcs.Base.Text.{Text, split}
use binutils_mcs.Base.Dict.{put}
use binutils_mcs.Base.Decimal.{decimal_from}
use binutils_mcs.Patches.Hunks.{Hunk, walk, walk_from, drop_last, split_patch, added_files}
use binutils_mcs.Patches.Hunks.Bounds.{headers, walk-headers}
use binutils_mcs.Patches.Fix.{process, finish, fix_hunks}

abbrev sha1 : Bytes → Text
sha1 bytes = codes "0123456789abcdef0123456789abcdef01234567"

abbrev patch : Text → Text → Text
patch hash count =
    codes "index 0000000.."
    ++ (hash
        ++ (codes "\n--- /dev/null\n+++ b/ld/a.sc\n@@ -0,0 +1,"
            ++ (count ++ codes " @@\n+A\n+B\n")))

abbrev good : Text
good = patch (codes "01234567") (codes "2")

abbrev files : Text → Option Bytes
files f = if equal f (codes "p") then some good else none

walked : (walk (split_patch good).0).raised ≡ none
unfolding walk_from split drop_last
walked = refl

walk-headers_example :
    map (λ (h : Hunk). h.first) (walk (split_patch good).0).hunks ≡ headers 0 (split_patch good).0
walk-headers_example = walk-headers (split_patch good).0 walked

added_files_run : added_files good ≡ ok ((codes "ld/a.sc", codes "A" ∷ codes "B" ∷ []) ∷ [])
unfolding added_files split drop_last put
added_files_run = refl

-- Both lines of a stale patch are rewritten.
process_run :
    (process sha1 false (patch (codes "fffffff") (codes "3"))).1.1
    ≡ some (patch (codes "0123456") (codes "2"))
unfolding process walk_from finish drop_last split fix_hunks decimal_from
process_run = refl
