-- ===== src/Watch/Run/Reported.antt =====
-- What a report of the watch says.
use binutils_mcs.Base.{
  ℕ, suc, ◌∙◌, ◌<◌, ◌⊎◌, ◌≤◌, ◌≡◌, refl, sym, ap, Bool, true, false, not, ◌&&◌, List, [], ◌∷◌, ◌++◌,
  arith, ltb, leb, ltb→lt, All, All-map, length, if◌then◌else◌, Bool-cases, inl, inr, Result, ok,
  err, >>=-eq-ok,
}
use mathlib.Core.Path.{subst}
use binutils_mcs.Base.Bytes.{Bytes, codes, starts_with}
use binutils_mcs.Base.Text.{Text}
use binutils_mcs.Watch.Releases.{
  Malfunction, no_signature, markup, small_tarball, untar_failed, other_directory, Pin, vtuple,
  tuple_lt, http, parse_index, read_pin, check_pin_against_index,
}
use binutils_mcs.Base.Dict.{Dict}
use binutils_mcs.Watch.Patches.{Verdict, clean, offsets, rejected, Applied, apply_patch, is_code}
use binutils_mcs.Watch.Run.{
  World, nothing, Report, report, tarball_min_bytes, rank, worst, worst_from, lstrip_bytes, patches,
  baseline_of, name_of, report_of, fetch_signature, fetch_tarball, apply_all, examine, decide, main,
}
use binutils_mcs.Watch.Releases.Numbers.{IsNewer, IsNewer-true}
use binutils_mcs.Watch.Run.Nothing.{examine-report, decide-cases}

-- The first is no worse than the second: clean is no worse than any, and rejected only than itself.
abbrev pub NoWorse : Verdict → Verdict → Type 0
NoWorse clean v = Unit
NoWorse offsets clean = ⊥
NoWorse offsets offsets = Unit
NoWorse offsets rejected = Unit
NoWorse rejected clean = ⊥
NoWorse rejected offsets = ⊥
NoWorse rejected rejected = Unit

rank-NoWorse : (u v : Verdict) → rank u ≤ rank v → NoWorse u v
rank-NoWorse clean v h = tt
rank-NoWorse offsets clean h = absurd (omega (arith, h))
rank-NoWorse offsets offsets h = tt
rank-NoWorse offsets rejected h = tt
rank-NoWorse rejected clean h = absurd (omega (arith, h))
rank-NoWorse rejected offsets h = absurd (omega (arith, h))
rank-NoWorse rejected rejected h = tt

-- No verdict of a list has a higher rank than `v`.
abbrev IsWorst : Verdict → List Applied → Type 0
IsWorst v rs = All (λ (r : Applied). rank r.verdict ≤ rank v) rs

-- One of the list has the verdict `v`.
abbrev pub IsAmong : Verdict → List Applied → Type 0
IsAmong v [] = ⊥
IsAmong v (r ∷ rs) = (r.verdict ≡ v) ⊎ IsAmong v rs

worst_from-IsAmong :
    (v : Verdict) (rs : List Applied) → (worst_from v rs ≡ v) ⊎ IsAmong (worst_from v rs) rs
unfolding worst_from
worst_from-IsAmong v [] = inl refl
worst_from-IsAmong v (r ∷ rs) = elim (Bool-cases (ltb (rank v) (rank r.verdict))) [
  | inl worse ↦
      subst (λ m. (m ≡ v) ⊎ IsAmong m (r ∷ rs))
        (ap (λ b. worst_from (if b then r.verdict else v) rs) (sym worse))
        (elim (worst_from-IsAmong r.verdict rs) [
          | inl this ↦ inr (inl (sym this))
          | inr later ↦ inr (inr later)
        ])
  | inr as_bad ↦
      subst (λ m. (m ≡ v) ⊎ IsAmong m (r ∷ rs))
        (ap (λ b. worst_from (if b then r.verdict else v) rs) (sym as_bad))
        (elim (worst_from-IsAmong v rs) [ inl this ↦ inl this | inr later ↦ inr (inr later) ])
]

worst-IsAmong : (rs : List Applied) → 0 < length rs → IsAmong (worst rs) rs
worst-IsAmong [] h = absurd (omega (arith, h))
worst-IsAmong (r ∷ rs) h = elim (worst_from-IsAmong r.verdict rs) [
  | inl this ↦ inl (sym this)
  | inr later ↦ inr later
]

ap_length : {rs ss : List Applied} → rs ≡ ss → length ss ≡ length rs
ap_length h = ap length (sym h)

length-apply_all :
    (w : World) (ps : List Text) {rs : List Applied}
    → apply_all w ps ≡ ok rs
    → length rs ≡ length ps
unfolding apply_all
length-apply_all w [] {rs = out} h = ap_length {rs = []} {ss = out} (cc h)
length-apply_all w (p ∷ ps) {rs = out} h =
    let (r, one, rest) = >>=-eq-ok (apply_patch (w.patch_lines p) (w.patch p)) _ h in
    let (rs, more, end) = >>=-eq-ok (apply_all w ps) _ rest in
    ap_length {rs = r ∷ rs} {ss = out} (cc end) ∙ ap suc (length-apply_all w ps more)

worst_from-rank :
    (v : Verdict) (rs : List Applied)
    → (rank v ≤ rank (worst_from v rs)) × IsWorst (worst_from v rs) rs
unfolding worst_from
worst_from-rank v [] = (omega arith, tt)
worst_from-rank v (r ∷ rs) = elim (Bool-cases (ltb (rank v) (rank r.verdict))) [
  | inl worse ↦
      let (l, all) = worst_from-rank r.verdict rs in
      subst (λ m. (rank v ≤ rank m) × IsWorst m (r ∷ rs))
        (ap (λ b. worst_from (if b then r.verdict else v) rs) (sym worse))
        (omega (arith, l, ltb→lt (rank v) (rank r.verdict) worse), (l, all))
  | inr as_bad ↦
      let (l, all) = worst_from-rank v rs in
      let before : rank r.verdict ≤ rank v = ground (arith, as_bad) in
      subst (λ m. (rank v ≤ rank m) × IsWorst m (r ∷ rs))
        (ap (λ b. worst_from (if b then r.verdict else v) rs) (sym as_bad))
        (l, (omega (arith, l, before), all))
]

worst-IsWorst : (rs : List Applied) → IsWorst (worst rs) rs
worst-IsWorst [] = tt
worst-IsWorst (r ∷ rs) = worst_from-rank r.verdict rs

rank-clean : (v : Verdict) → rank v ≤ 0 → v ≡ clean
rank-clean clean h = refl
rank-clean offsets h = absurd (omega (arith, h))
rank-clean rejected h = absurd (omega (arith, h))

IsWorst-clean :
    (v : Verdict) (rs : List Applied)
    → v ≡ clean
    → IsWorst v rs
    → All (λ (r : Applied). r.verdict ≡ clean) rs
IsWorst-clean v [] is all = tt
IsWorst-clean v (r ∷ rs) is (h, all) =
    (rank-clean r.verdict (subst (λ u. rank r.verdict ≤ rank u) is h), IsWorst-clean v rs is all)

-- A report is on a release that is newer than the baseline, on a signature of 64 to 4096 bytes, on a tarball of 4 MiB or more,
-- and on both patches; its verdict is the worst of theirs, and clean only if both are.
pub record IsReported (w : World) (baseline : Text) (r : Report) : Type 0 where
  pub newer : IsNewer baseline r.version
  pub sig_bounds : (64 ≤ r.sig_size) × (r.sig_size ≤ 4096)
  pub size_bound : 4194304 ≤ r.size
  pub applied : apply_all w patches ≡ ok r.results
  pub two_results : length r.results ≡ 2
  pub attained : IsAmong r.verdict r.results
  pub none_worse : All (λ (a : Applied). NoWorse a.verdict r.verdict) r.results
  pub all_clean : r.verdict ≡ clean → All (λ (a : Applied). a.verdict ≡ clean) r.results

in_bounds :
    (n : ℕ) (b : Bool) {sig out : Bytes}
    → ◌≡◌ {A = Result Malfunction Bytes}
        (if not (leb 64 n && leb n 4096)
          then err no_signature
          else if b
          then err markup
          else ok sig)
        (ok out)
    → (64 ≤ n) × (n ≤ 4096) × (sig ≡ out)
in_bounds n b h = elim (Bool-cases (leb 64 n && leb n 4096)) [
  | inr bad ↦ cc (rw bad at h)
  | inl good ↦ elim (Bool-cases b) [
    | inl is_markup ↦ cc (rw (good, is_markup) at h)
    | inr other ↦ (ground (arith, good), ground (arith, good), cc (rw (good, other) at h))
  ]
]

fetch_signature-bounds :
    (w : World) (url : Text) {sig : Bytes}
    → fetch_signature w url ≡ ok sig
    → (64 ≤ length sig) × (length sig ≤ 4096)
unfolding fetch_signature
fetch_signature-bounds w url {sig} h =
    let (got, fetched, rest) = >>=-eq-ok (http (w.file url)) _ h in
    let (low, high, same) =
      in_bounds (length got) (starts_with (lstrip_bytes got) (codes "<")) rest in
    subst (λ (s : Bytes). (64 ≤ length s) × (length s ≤ 4096)) same (low, high)

passed :
    (b c : Bool) {tar out : Bytes}
    → ◌≡◌ {A = Result Malfunction Bytes}
        (if b then err untar_failed else if c then err other_directory else ok tar)
        (ok out)
    → tar ≡ out
passed true c h = cc h
passed false true h = cc h
passed false false h = cc h

large_enough :
    (n : ℕ) (b c : Bool) {tar out : Bytes}
    → ◌≡◌ {A = Result Malfunction Bytes}
        (if ltb n tarball_min_bytes
          then err small_tarball
          else if b
          then err untar_failed
          else if c
          then err other_directory
          else ok tar)
        (ok out)
    → (4194304 ≤ n) × (tar ≡ out)
large_enough n b c h = elim (Bool-cases (ltb n tarball_min_bytes)) [
  | inl small ↦ cc (rw small at h)
  | inr large ↦ (ground (arith, large), passed b c (rw large at h))
]

fetch_tarball-bound :
    (w : World) (url v : Text) {tar : Bytes} → fetch_tarball w url v ≡ ok tar → 4194304 ≤ length tar
unfolding fetch_tarball
fetch_tarball-bound w url v {tar} h =
    let (got, fetched, rest) = >>=-eq-ok (http (w.file url)) _ h in
    let (low, same) =
      large_enough (length got) (not (is_code 0 (w.untar got)))
        (not (w.is_dir got (codes "binutils-" ++ v))) rest in
    subst (λ (s : Bytes). 4194304 ≤ length s) same low

report-inj : {r s : Report} → report r ≡ report s → r ≡ s
report-inj h = cc h

nothing-report : {v : Text} {r : Report} → nothing v ≡ report r → ⊥
nothing-report h = cc h

examine-IsReported :
    (w : World) (index_url name v baseline : Text) {r : Report}
    → tuple_lt (vtuple baseline) (vtuple v) ≡ true
    → examine w index_url name v ≡ ok (report r)
    → IsReported w baseline r
examine-IsReported w index_url name v baseline {r} newer examined =
    let (sig, tar, results, signed, got, applied, same) =
      examine-report w index_url name v examined in
    subst (IsReported w baseline) {x = report_of w v sig tar results} (report-inj same) (record {
      newer = IsNewer-true baseline v newer;
      sig_bounds = fetch_signature-bounds w (index_url ++ (name ++ codes ".sig")) signed;
      size_bound = fetch_tarball-bound w (index_url ++ name) v got;
      applied = applied;
      two_results = length-apply_all w patches applied;
      attained = worst-IsAmong results (omega (arith, length-apply_all w patches applied));
      none_worse =
          All-map (λ (a : Applied) h. rank-NoWorse a.verdict (worst results) h) results
            (worst-IsWorst results);
      all_clean = λ e. IsWorst-clean (worst results) results e (worst-IsWorst results);
    })

decide-IsReported :
    (w : World) (index_url baseline : Text) (d : Dict Text) {r : Report}
    → decide w index_url baseline d ≡ ok (report r)
    → IsReported w baseline r
decide-IsReported w index_url baseline d h =
    let (v, is_newest, said) = decide-cases w index_url baseline d h in
    elim said [
      | inl (old, same) ↦ absurd (nothing-report same)
      | inr (newer, examined) ↦
          examine-IsReported w index_url (name_of d v) v baseline newer examined
    ]

-- A run that ends with a report has read a pin and a version to compare against, and the report is on a version whose
-- numbers are larger at the first place where they differ, or go on where the others end, with a signature of 64 to 4096 bytes, a
-- tarball of 4 MiB or more and two patches; its verdict is that of one of these, none of theirs is worse, and it is
-- clean only if both are.
pub main-IsReported :
    (w : World) (index_url pretend : Text) {r : Report}
    → main w index_url pretend ≡ ok (report r)
    → (pin : Pin) × (baseline : Text) × (read_pin w.has_makefile w.print_port ≡ ok pin)
      × (baseline_of pin pretend ≡ ok baseline)
      × IsReported w baseline r
unfolding main
main-IsReported w index_url pretend {r} h =
    let (pin, pinned, h₁) = >>=-eq-ok (read_pin w.has_makefile w.print_port) _ h in
    let (t, same_index, h₂) = >>=-eq-ok (check_pin_against_index pin index_url) _ h₁ in
    let (baseline, compared, h₃) = >>=-eq-ok (baseline_of pin pretend) _ h₂ in
    let (html, fetched, h₄) = >>=-eq-ok (http (w.page index_url)) _ h₃ in
    let (releases, accepted, h₅) = >>=-eq-ok (parse_index html pin.version) _ h₄ in
    (pin, baseline, pinned, compared, decide-IsReported w index_url baseline releases h₅)
