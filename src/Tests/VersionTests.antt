-- ===== src/Tests/VersionTests.antt =====
-- The theorems about cli/version/version_tools.go and cli/search/search.go on small inputs.
use tt.Prelude.{Has, ℕ, String, ◌≡◌, ◌↔◌, refl, true, some, List, [], ◌∷◌, ◌==◌}
use tt.Scan.{parse_uint}
use tt.Regex.{find_named_matches, match_prefix, captured}
use tt.Version.{
  Version, type_release, type_rc, parsed, parse, atoi_uint64, atoi_or_zero, new_release,
  release_type_of, version_regex, version_of, numbers, less_numbers, is_less, type_number,
}
use tt.Version.Precedes.{Precedes, is_less-Precedes}
use tt.Version.Sort.{IsSorted, stable_sort, insert_by}
use tt.Search.{
  found, BundleInfo, git_repo_tarantool, remote_versions, get_versions_from_git_remote,
  after_last_slash, keep_tag, is_masked, contains, search_debug, parse_bundle, passes_filter,
  bundle_regex, release_bundles, all_bundles, local_bundles, get_bundles,
}
use tt.Search.Tags.{IsTagged, get_versions_from_git_remote-IsTagged}
use tt.Search.Bundles.{bundle_version}

-- What a run of the parser unfolds.
unfoldable version_runs : Unit {0}
unfolding parse version_of new_release release_type_of atoi_uint64 atoi_or_zero parse_uint
    version_regex find_named_matches match_prefix captured
version_runs = tt

abbrev version : String → ℕ → ℕ → ℕ → Version
version s a b c = record {
  major = a;
  minor = b;
  patch = c;
  additional = 0;
  revision = 0;
  release = record { release_type = type_release; num = 0; str = "" };
  hash = "";
  str = s;
  tarball = "";
  build_name = "";
}

parse_runs : parse "2.11.0" ≡ parsed (version "2.11.0" 2 11 0)
unfolding version_runs
parse_runs = refl

-- The suffix is taken for a hash.
parse_gc : parse "2.11.0-gc64" ≡ parsed (record (version "2.11.0-gc64" 2 11 0) { hash = "gc64" })
unfolding version_runs
parse_gc = refl

parse_release :
    parse "v3.0.0-rc2-15-gdeadbee-r7"
    ≡ parsed (record (version "v3.0.0-rc2-15-gdeadbee-r7" 3 0 0) {
      additional = 15;
      revision = 7;
      hash = "gdeadbee";
      release = record { release_type = type_rc; num = 2; str = "rc2" };
    })
unfolding version_runs
parse_release = refl

-- The tag 1.9.0 is masked, and the tag docs is no version.
abbrev lines : List String
lines =
    "c1 refs/tags/2.11.0" ∷ "c2 refs/tags/1.9.0" ∷ "c3 refs/tags/docs" ∷ "c4 refs/tags/2.8.4" ∷ []

abbrev listed : List Version
listed = version "2.8.4" 2 8 4 ∷ version "2.11.0" 2 11 0 ∷ []

list_runs : get_versions_from_git_remote git_repo_tarantool (some lines) ≡ found listed
unfolding version_runs get_versions_from_git_remote remote_versions after_last_slash keep_tag
    is_masked stable_sort insert_by is_less numbers less_numbers type_number
list_runs = refl

get_versions_from_git_remote-IsTagged_example :
    IsSorted (λ (w : Version). w) listed
    × ((v : Version) → Has v listed ↔ IsTagged (git_repo_tarantool == git_repo_tarantool) v lines)
get_versions_from_git_remote-IsTagged_example =
    get_versions_from_git_remote-IsTagged git_repo_tarantool lines listed list_runs

abbrev sdk : String
sdk = "tarantool-enterprise-sdk-debug-2.11.0-r1.tar.gz"

abbrev sdk_version : Version
sdk_version = record (version "debug-2.11.0-r1" 2 11 0) {
  revision = 1;
  build_name = "debug";
  tarball = sdk;
}

abbrev sort : List BundleInfo → List BundleInfo
sort l = stable_sort bundle_version l

abbrev bundle : String → String → BundleInfo
bundle name release = record {
  version = sdk_version;
  package_name = name;
  release = release;
  token = "";
}

bundle_runs : local_bundles (sdk ∷ "README.md" ∷ []) [] ≡ found (bundle "" "" ∷ [])
unfolding version_runs local_bundles parse_bundle bundle_regex
bundle_runs = refl

raw_runs :
    get_bundles sort (("2.11", sdk ∷ "x.sha256" ∷ []) ∷ []) search_debug
    ≡ found (bundle "enterprise" "2.11" ∷ [])
unfolding version_runs get_bundles all_bundles release_bundles parse_bundle bundle_regex
    passes_filter contains stable_sort insert_by
raw_runs = refl

abbrev candidate : Version
candidate = record (version "3.0.0-rc2" 3 0 0) {
  release = record { release_type = type_rc; num = 2; str = "rc2" };
}

-- A release candidate is less than its release.
is_less-Precedes_example :
    (is_less candidate (version "3.0.0" 3 0 0) ≡ true) ↔ Precedes candidate (version "3.0.0" 3 0 0)
is_less-Precedes_example = is_less-Precedes candidate (version "3.0.0" 3 0 0)
