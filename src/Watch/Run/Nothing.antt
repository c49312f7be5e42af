-- ===== src/Watch/Run/Nothing.antt =====
-- When the watch has nothing to report.
use binutils_mcs.Base.{
  ◌≤◌, ◌≡◌, sym, ap, ◌∙◌, true, none, some, List, [], ◌∷◌, ◌++◌, ◌⊎◌, All, All-map, length,
  if◌then◌else◌, Bool-cases, Option-cases, inl, inr, ok, >>=-eq-ok,
}
use mathlib.Core.Path.{subst}
use mathlib.Core.Option.{some-injective}
use binutils_mcs.Base.Bytes.{Bytes, codes, equal, equal_iff}
use binutils_mcs.Base.Text.{Text}
use binutils_mcs.Base.Dict.{Dict, keys, member, member-keys}
use binutils_mcs.Watch.Releases.{
  vtuple, tuple_lt, hrefs, tarballs, tarball_of, newest, Pin, read_pin, check_pin_against_index,
  http, parse_index,
}
use binutils_mcs.Watch.Releases.Order.{AtLeast, IsNewest, AtLeast-trans, newest_from-IsNewest}
use binutils_mcs.Watch.Releases.Numbers.{IsNewer, not_newer}
use binutils_mcs.Watch.Releases.Signed.{is_signed, parse_index-IsSigned}
use binutils_mcs.Watch.Run.{
  World, Outcome, nothing, report, baseline_of, newest_of, name_of, report_of, fetch_signature,
  fetch_tarball, apply_all, patches, examine, decide, main,
}
use binutils_mcs.Watch.Patches.{Applied}

-- A listing in which no release is newer than the baseline: there are ten releases or more, the pinned one among them, and
-- no version whose tarball and signature are linked is newer than the baseline.
pub record IsOld (html pin_version baseline version : Text) : Type 0 where
  pub releases : Dict Text
  pub accepted : parse_index html pin_version ≡ ok releases
  pub enough : 10 ≤ length releases
  pub has_pin : member pin_version (keys releases) ≡ true
  pub newest : All (λ u. ¬ IsNewer version u) (keys releases)
  pub all_old : (v : Text) → is_signed (hrefs html) (tarballs html) v ≡ true → ¬ IsNewer baseline v

-- `nothing` is only said of a listing that was fetched and accepted.
pub record SaysNothing (w : World) (index_url pretend version : Text) : Type 0 where
  pub pin : Pin
  pub html : Text
  pub baseline : Text
  pub pinned : read_pin w.has_makefile w.print_port ≡ ok pin
  pub same_index : check_pin_against_index pin index_url ≡ ok tt
  pub compared : baseline_of pin pretend ≡ ok baseline
  pub fetched : http (w.page index_url) ≡ ok html
  pub is_old : IsOld html pin.version baseline version

-- A newer release is reported.
pub examine-report :
    (w : World) (index_url name version : Text) {o : Outcome}
    → examine w index_url name version ≡ ok o
    → (sig tar : Bytes) × (results : List Applied) × (fetch_signature w
          (index_url ++ (name ++ codes ".sig"))
        ≡ ok sig)
      × (fetch_tarball w (index_url ++ name) version ≡ ok tar)
      × (apply_all w patches ≡ ok results)
      × (report (report_of w version sig tar results) ≡ o)
unfolding examine
examine-report w index_url name version h =
    let (sig, signed, h₁) =
      >>=-eq-ok (fetch_signature w (index_url ++ (name ++ codes ".sig"))) _ h in
    let (tar, fetched, h₂) = >>=-eq-ok (fetch_tarball w (index_url ++ name) version) _ h₁ in
    let (results, applied, h₃) = >>=-eq-ok (apply_all w patches) _ h₂ in
    (sig, tar, results, signed, fetched, applied, cc h₃)

newest-IsNewest : (ks : List Text) {v : Text} → newest ks ≡ some v → IsNewest v ks
newest-IsNewest [] h = cc h
newest-IsNewest (k ∷ ks) h =
    subst (λ v. IsNewest v (k ∷ ks)) (some-injective _ _ h) (newest_from-IsNewest k ks)

newest_of-eq : (d : Dict Text) {v : Text} → newest_of d ≡ ok v → newest (keys d) ≡ some v
newest_of-eq d h = elim (Option-cases (newest (keys d))) [
  | inl absent ↦ cc (rw (absent, newest_of) at h)
  | inr (u, is) ↦ is ∙ ap some (cc (rw (is, newest_of) at h))
]

-- What `decide` says of a listing: the newest release, which is not newer than the baseline, or a report on it.
pub decide-cases :
    (w : World) (index_url baseline : Text) (d : Dict Text) {o : Outcome}
    → decide w index_url baseline d ≡ ok o
    → (v : Text) × IsNewest v (keys d)
      × ((AtLeast baseline v × (nothing v ≡ o))
          ⊎ ((tuple_lt (vtuple baseline) (vtuple v) ≡ true)
              × (examine w index_url (name_of d v) v ≡ ok o)))
unfolding decide
decide-cases w index_url baseline d h =
    let (v, is, rest) = >>=-eq-ok (newest_of d) _ h in
    (
      v,
      newest-IsNewest (keys d) (newest_of-eq d is),
      elim (Bool-cases (tuple_lt (vtuple baseline) (vtuple v))) [
        | inl newer ↦ inr (newer, rw newer at rest)
        | inr old ↦ inl (old, cc (rw old at rest))
      ],
    )

nothing-inj : {u v : Text} → nothing u ≡ nothing v → u ≡ v
nothing-inj h = cc h

decide-nothing :
    (w : World) (index_url baseline : Text) (d : Dict Text) {v : Text}
    → decide w index_url baseline d ≡ ok (nothing v)
    → IsNewest v (keys d) × AtLeast baseline v
decide-nothing w index_url baseline d {v} h =
    let (u, is_newest, said) = decide-cases w index_url baseline d h in
    elim said [
      | inl (old, same) ↦
          subst (λ t. IsNewest t (keys d) × AtLeast baseline t) (nothing-inj same) (is_newest, old)
      | inr (newer, examined) ↦
          let (sig, tar, results, a, b, c, same) =
            examine-report w index_url (name_of d u) u examined in
          cc same
    ]

member-All : (P : Text → Type 0) (v : Text) (ks : List Text) → member v ks ≡ true → All P ks → P v
member-All P v [] m all = cc m
member-All P v (k ∷ ks) m (here, all) = elim (Bool-cases (equal v k)) [
  | inl same ↦ subst P (sym ((equal_iff v k).0 same)) here
  | inr other ↦ member-All P v ks (rw other at m) all
]

-- A run that ends with nothing to report has read a pin that fits the address, has fetched the page and accepted its
-- listing with the pinned release in it, and no version whose tarball and signature the page links is newer than the
-- one that is compared against, nor is a release of the listing newer than the version that it names. A version is newer if its
-- numbers between the dots are larger at the first place where they differ, or go on where the others end.
pub main-SaysNothing :
    (w : World) (index_url pretend : Text) {version : Text}
    → main w index_url pretend ≡ ok (nothing version)
    → SaysNothing w index_url pretend version
unfolding main
main-SaysNothing w index_url pretend {version} h =
    let (pin, pinned, h₁) = >>=-eq-ok (read_pin w.has_makefile w.print_port) _ h in
    let (t, same_index, h₂) = >>=-eq-ok (check_pin_against_index pin index_url) _ h₁ in
    let (baseline, compared, h₃) = >>=-eq-ok (baseline_of pin pretend) _ h₂ in
    let (html, fetched, h₄) = >>=-eq-ok (http (w.page index_url)) _ h₃ in
    let (releases, accepted, h₅) = >>=-eq-ok (parse_index html pin.version) _ h₄ in
    let (enough, has_pin, signed) = parse_index-IsSigned html pin.version accepted in
    let (is_newest, old) = decide-nothing w index_url baseline releases h₅ in
    record {
      pin = pin;
      html = html;
      baseline = baseline;
      pinned = pinned;
      same_index = same_index;
      compared = compared;
      fetched = fetched;
      is_old = record {
        releases = releases;
        accepted = accepted;
        enough = enough;
        has_pin = has_pin;
        newest = All-map (λ u. not_newer version u) (keys releases) is_newest;
        all_old = λ v is. not_newer baseline v (
            AtLeast-trans baseline version v old (
              member-All (AtLeast version) v (keys releases)
                (member-keys v releases {v = tarball_of v}
                  (signed v ∙ ap (λ b. if b then some (tarball_of v) else none) is))
                is_newest));
      };
    }
