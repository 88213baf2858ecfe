-- ===== src/Search/Bundles.antt =====
-- Which bundle `GetTarantoolBundleInfo` picks, and what `getBundles` lists.
use tt.Prelude.{
  Has, All-Has, Has-All, String, ◌≡◌, ◌≢◌, ◌⊎◌, inl, inr, refl, ap, sym, subst, ◌∙◌, true, false,
  Option, some, List, [], ◌∷◌, ◌++◌, All, All-append, length, arith, Bool-cases, Option-cases,
}
use tt.Regex.{captured, find_named_matches}
use tt.Version.{parse, Version, VersionError, Parsed, parsed, failed, is_less}
use tt.Version.Order.{is_less_irrefl}
use tt.Version.Sort.{IsSorted, Sorts}
use tt.Search.{
  SearchError, sorted_or_none, bundle_regex, Found, found, refused, panicked, SearchFlags,
  BundleInfo, parse_bundle, passes_filter, release_bundles, all_bundles, local_bundles, last_bundle,
  get_bundles, fetch_bundles_info_local, get_local_bundle_info, bundles_or_nil,
}

abbrev pub bundle_version : BundleInfo → Version
bundle_version b = b.version

-- The last of a sorted list is less than none of it.
last_bundle-greatest :
    (b : BundleInfo) (l : List BundleInfo)
    → IsSorted bundle_version (b ∷ l)
    → (m : BundleInfo) × (last_bundle (b ∷ l) ≡ found m)
      × Has m (b ∷ l)
      × All (λ c. is_less m.version c.version ≡ false) (b ∷ l)
unfolding last_bundle
last_bundle-greatest b [] h = (b, refl, inl refl, (is_less_irrefl b.version, tt))
last_bundle-greatest b (c ∷ l) h =
    let (m, e, here, greatest) = last_bundle-greatest c l h.1 in
    (
      m,
      e,
      inr here,
      (All-Has (λ y. is_less y.version b.version ≡ false) m (c ∷ l) h.0 here, greatest),
    )

found_inj : (l m : List BundleInfo) → found l ≡ found m → l ≡ m
found_inj l m h = ground (arith, h)

module _ (sort : List BundleInfo → List BundleInfo) (sort-Sorts : Sorts bundle_version sort) where
  last_sorted :
      (bs sorted : List BundleInfo)
      → sorted ≡ sort bs
      → bs ≢ []
      → (m : BundleInfo) × (last_bundle sorted ≡ found m)
        × Has m sorted
        × All (λ c. is_less m.version c.version ≡ false) sorted
  last_sorted [] sorted e some_bundle = absurd (some_bundle refl)
  last_sorted (x ∷ bs) [] e some_bundle =
      absurd (ground (arith, ap length e, sort-Sorts.keeps_length (x ∷ bs)))
  last_sorted (x ∷ bs) (y ∷ l) e some_bundle =
      last_bundle-greatest y l (subst (IsSorted bundle_version) (sym e) (sort-Sorts.sorts (x ∷ bs)))

  -- Where `sort` rearranges and sorts, GetTarantoolBundleInfo gives without an expected version, of the local bundles, one that is
  -- less than none of them, if every version among the files parses and there is a bundle at all.
  get_local_bundle_info-greatest :
      (files : List String) (bs : List BundleInfo)
      → local_bundles files [] ≡ found bs
      → bs ≢ []
      → (m : BundleInfo) × (get_local_bundle_info sort files "" ≡ found m)
        × Has m bs
        × ((c : BundleInfo) → Has c bs → is_less m.version c.version ≡ false)
  unfolding get_local_bundle_info fetch_bundles_info_local
  get_local_bundle_info-greatest files bs h some_bundle =
      let fetched : fetch_bundles_info_local sort files ≡ found (sort bs) = ground (arith, h) in
      let (m, e, here, greatest) = last_sorted bs (sort bs) refl some_bundle in
      (
        m,
        ap (λ f. last_bundle (bundles_or_nil sort f)) fetched ∙ e,
        (sort-Sorts.rearranges m bs).0 here,
        λ c k.
            All-Has (λ d. is_less m.version d.version ≡ false) c (sort bs) greatest
              ((sort-Sorts.rearranges c bs).1 k),
      )

Parsed-cases :
    (p : Parsed Version) → ((v : Version) × (p ≡ parsed v)) ⊎ ((e : VersionError) × (p ≡ failed e))
Parsed-cases (parsed v) = inl (v, refl)
Parsed-cases (failed e) = inr (e, refl)

Found-cases :
    (f : Found (List BundleInfo))
    → ((l : List BundleInfo) × (f ≡ found l))
      ⊎ (((e : SearchError) × (f ≡ refused e)) ⊎ (f ≡ panicked))
Found-cases (found l) = inl (l, refl)
Found-cases (refused e) = inr (inl (e, refl))
Found-cases panicked = inr (inr refl)

-- What a bundle was made of: a package name that parses into its version and passes the filter.
abbrev pub IsBundled : SearchFlags → BundleInfo → Type 0
IsBundled flags b =
    (parse_bundle b.version.tarball ≡ some (parsed b.version))
    × (passes_filter flags b.version.tarball ≡ true)

parse_bundle-tarball :
    (pkg : String) (v : Version) → parse_bundle pkg ≡ some (parsed v) → v.tarball ≡ pkg
unfolding parse_bundle
parse_bundle-tarball pkg v h = elim (Option-cases (find_named_matches bundle_regex pkg)) [
  | inl n ↦ absurd (ground (arith, h, n))
  | inr (cs, n) ↦ elim (Parsed-cases (parse (captured "version" cs))) [
    | inl (w, m) ↦
        let same : record w { tarball = pkg } ≡ v = ground (arith, h, n, m) in
        ap (λ (u : Version). u.tarball) (sym same)
    | inr (e, m) ↦ absurd (ground (arith, h, n, m))
  ]
]

named-IsBundled :
    (flags : SearchFlags) (pkg : String) (v : Version) (b : BundleInfo)
    → b.version ≡ v
    → parse_bundle pkg ≡ some (parsed v)
    → passes_filter flags pkg ≡ true
    → IsBundled flags b
named-IsBundled flags pkg v b e n p =
    let named : b.version.tarball ≡ pkg =
      ap (λ (u : Version). u.tarball) e ∙ parse_bundle-tarball pkg v n in
    (
      ap parse_bundle named
          ∙ n
          ∙ ap (λ (u : Version). let o : Option (Parsed Version) = some (parsed u) in o) (sym e),
      ap (passes_filter flags) named ∙ p,
    )

release_bundles-IsBundled :
    (flags : SearchFlags) (release : String) (pkgs : List String) (before after : List BundleInfo)
    → All (IsBundled flags) before
    → release_bundles flags release pkgs before ≡ found after
    → All (IsBundled flags) after
unfolding release_bundles
release_bundles-IsBundled flags release [] before after h e =
    subst (All (IsBundled flags)) (found_inj before after e) h
release_bundles-IsBundled flags release (pkg ∷ pkgs) before after h e =
    elim (Option-cases (parse_bundle pkg)) [
      | inl n ↦ release_bundles-IsBundled flags release pkgs before after h (ground (arith, e, n))
      | inr (failed x, n) ↦ absurd (ground (arith, e, n))
      | inr (parsed v, n) ↦
          let b : BundleInfo = record {
            version = v;
            package_name = "enterprise";
            release = release;
            token = "";
          } in
          elim (Bool-cases (passes_filter flags pkg)) [
            | inl p ↦
                release_bundles-IsBundled flags release pkgs (before ++ b ∷ []) after
                  (All-append (IsBundled flags) before (b ∷ []) h
                    (named-IsBundled flags pkg v b refl n p, tt))
                  (ground (arith, e, n, p))
            | inr p ↦
                release_bundles-IsBundled flags release pkgs before after h
                  (ground (arith, e, n, p))
          ]
    ]

all_bundles-IsBundled :
    (flags : SearchFlags) (raw : List (String × List String)) (before after : List BundleInfo)
    → All (IsBundled flags) before
    → all_bundles flags raw before ≡ found after
    → All (IsBundled flags) after
unfolding all_bundles
all_bundles-IsBundled flags [] before after h e =
    subst (All (IsBundled flags)) (found_inj before after e) h
all_bundles-IsBundled flags ((release, pkgs) ∷ rest) before after h e =
    elim (Found-cases (release_bundles flags release pkgs before)) [
      | inl (more, f) ↦
          all_bundles-IsBundled flags rest more after
            (release_bundles-IsBundled flags release pkgs before more h f) (ground (arith, e, f))
      | inr (inl (x, f)) ↦ absurd (ground (arith, e, f))
      | inr (inr f) ↦ absurd (ground (arith, e, f))
    ]

module _ (sort : List BundleInfo → List BundleInfo) (sort-Sorts : Sorts bundle_version sort) where
  -- Where `sort` rearranges and sorts, and getBundles answers, no bundle is less than one before it, there is one, and each is a
  -- package whose name parses into the bundle's version and passes the filter.
  get_bundles-IsBundled :
      (raw : List (String × List String)) (flags : SearchFlags) (bs : List BundleInfo)
      → get_bundles sort raw flags ≡ found bs
      → IsSorted bundle_version bs × (bs ≢ []) × All (IsBundled flags) bs
  unfolding get_bundles sorted_or_none
  get_bundles-IsBundled raw flags bs h = elim (Found-cases (all_bundles flags raw [])) [
    | inr (inl (x, f)) ↦ absurd (ground (arith, h, f))
    | inr (inr f) ↦ absurd (ground (arith, h, f))
    | inl ([], f) ↦ absurd (ground (arith, h, f))
    | inl (b ∷ l, f) ↦
        let same : sort (b ∷ l) ≡ bs = found_inj (sort (b ∷ l)) bs (ground (arith, h, f)) in
        let made : All (IsBundled flags) (b ∷ l) =
          all_bundles-IsBundled flags raw [] (b ∷ l) tt f in
        (
          subst (IsSorted bundle_version) same (sort-Sorts.sorts (b ∷ l)),
          (λ e. ground (arith, sort-Sorts.keeps_length (b ∷ l), ap length (same ∙ e))),
          Has-All (IsBundled flags) bs (λ c k.
              All-Has (IsBundled flags) c (b ∷ l) made
                ((sort-Sorts.rearranges c (b ∷ l)).0 (subst (Has c) (sym same) k))),
        )
  ]
