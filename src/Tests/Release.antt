-- ===== src/Tests/Release.antt =====
-- A release of one host whose archive holds all that is asked for, with one patch.
use binutils_mcs.Base.{◌≡◌, refl, none, some, [], ◌∷◌, ◌++◌, if◌then◌else◌, ok}
use binutils_mcs.Base.Bytes.{Bytes, codes, equal}
use binutils_mcs.Base.Text.{Text, strip, rev_onto, split_once, splitlines, universal_from, text_lt}
use binutils_mcs.Base.Dict.{Dict, get, put}
use binutils_mcs.Release.Archive.{Opened, Claim, check_archive}
use binutils_mcs.Release.Assets.{Inputs, main}
use binutils_mcs.Release.Assets.Status.{IsReleased, main-IsReleased}

abbrev claim : Claim
claim = record {
  version = codes "2.47";
  sha256 = codes "ab";
  commit = codes "cd";
  target = codes "i51-elf";
  patches = codes "mcs51/additions.patch" ∷ [];
}

abbrev stem : Text
stem = codes "i51-binutils-2.47-linux"

abbrev opened : Opened
opened = record {
  names =
      (stem ++ codes "/")
      ∷ (stem ++ codes "/bin/i51-elf-as")
      ∷ (stem ++ codes "/bin/i51-elf-ld.exe")
      ∷ (stem ++ codes "/COPYING3")
      ∷ (stem ++ codes "/BUILD-INFO.txt")
      ∷ [];
  read = λ name.
      some (codes "upstream-binutils: 2.47\nupstream-sha256: ab\r\nport-commit: cd\nhost: linux\n");
}

abbrev inputs : Inputs
inputs = record {
  include = (codes "linux", none) ∷ [];
  walk = (codes "dl", []) ∷ (codes "dl/linux", codes "log" ∷ (stem ++ codes ".tar.gz") ∷ []) ∷ [];
  file = λ dir name. 7 ∷ [];
  open_archive = λ name b. some opened;
  patch = λ src. some (1 ∷ 2 ∷ []);
  sha256 =
      λ b. elim b [ [] ↦ codes "00" | x ∷ xs ↦ if equal xs [] then codes "07" else codes "12" ];
}

abbrev written : Dict Bytes
written =
    (stem ++ codes ".tar.gz", 7 ∷ [])
    ∷ (codes "binutils-2.47-mcs51-additions.patch", 1 ∷ 2 ∷ [])
    ∷ (
      codes "SHA256SUMS",
      codes "12  binutils-2.47-mcs51-additions.patch\n07  i51-binutils-2.47-linux.tar.gz\n",
    )
    ∷ []

released : main inputs claim ≡ ok (0, written)
unfolding main get put check_archive rev_onto split_once splitlines universal_from strip text_lt
released = refl

main-IsReleased_example : IsReleased inputs claim written
main-IsReleased_example = main-IsReleased inputs claim released
