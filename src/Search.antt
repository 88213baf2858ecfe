-- ===== src/Search.antt =====
-- cli/search/search.go: the versions that can be installed.
pub mod Tags
pub mod Bundles
use Prim.Native.Char.{code}
use tt.Prelude.{
  ℕ, String, Bool, true, false, not, ◌&&◌, ◌||◌, Option, some, none, List, [], ◌∷◌, ◌++◌, ltb,
  nat_eq, ◌==◌, if◌then◌else◌,
}
use tt.Regex.{
  Regex, literal, class, many, optional, seq, group, captured, find_named_matches, any_char, digit,
}
use tt.Version.{Version, VersionError, Parsed, parsed, failed, parse}
use tt.Version.Sort.{stable_sort}

-- `isMasked`.
unfoldable pub is_masked : Version → Bool
is_masked v =
    if nat_eq v.major 1 && ltb v.minor 10
    then true
    else if nat_eq v.major 1 && nat_eq v.minor 10 && ltb v.patch 11
    then true
    else if nat_eq v.major 2 && ltb v.minor 7
    then true
    else if nat_eq v.major 2 && nat_eq v.minor 10 && nat_eq v.patch 1
    then true
    else nat_eq v.major 2 && ltb v.minor 10 && nat_eq v.patch 0

pub data SearchError : Type 0 where
  git_failed unexpected_data no_packages no_version request_failed : SearchError
  bad_version : VersionError → SearchError

pub data Found {ℓ} (A : Type ℓ) : Type ℓ where
  found : A → Found A
  refused : SearchError → Found A
  -- an index out of range
  panicked : Found A

-- `line[strings.LastIndex(line, "/")+1:]`; `none` for a line without a slash.
unfoldable pub after_last_slash : String → Option String
after_last_slash String.[] = none
after_last_slash (String.◌∷◌ c s) = elim (after_last_slash s) [
  | some tail ↦ some tail
  | none ↦ if nat_eq (code c) b'/' then some s else none
]

abbrev pub git_repo_tarantool : String
git_repo_tarantool = "https://github.com/tarantool/tarantool.git"

-- Whether a tag is left out of the list.
unfoldable pub keep_tag : Bool → Parsed Version → List Version → List Version
keep_tag masks (failed e) rest = rest
keep_tag masks (parsed v) rest = if is_masked v && masks then rest else v ∷ rest

unfoldable pub remote_versions : Bool → List String → Found (List Version)
remote_versions masks [] = found []
remote_versions masks (line ∷ lines) = elim (after_last_slash line) [
  | none ↦ refused unexpected_data
  | some tag ↦ elim (remote_versions masks lines) [
    | found rest ↦ found (keep_tag masks (parse tag) rest)
    | refused e ↦ refused e
    | panicked ↦ panicked
  ]
]

-- What Split makes of an empty output.
abbrev pub no_tags : List String → Bool
no_tags (line ∷ []) = line == ""
no_tags _ = false

-- `GetVersionsFromGitRemote`. `output` is what `git ls-remote` prints, trimmed and split into
-- lines, or none where git is missing or fails.
unfoldable pub get_versions_from_git_remote : String → Option (List String) → Found (List Version)
get_versions_from_git_remote repo none = refused git_failed
get_versions_from_git_remote repo (some lines) =
    if no_tags lines then found [] else elim (remote_versions (repo == git_repo_tarantool) lines) [
      | found versions ↦ found (stable_sort (λ v. v) versions)
      | refused e ↦ refused e
      | panicked ↦ panicked
    ]

unfoldable pub local_versions : Bool → List String → List Version
local_versions masks [] = []
local_versions masks (line ∷ lines) = keep_tag masks (parse line) (local_versions masks lines)

abbrev pub starts_with : String → String → Bool
starts_with String.[] s = true
starts_with (String.◌∷◌ a t) String.[] = false
starts_with (String.◌∷◌ a t) (String.◌∷◌ c s) = nat_eq (code a) (code c) && starts_with t s

-- strings.Contains(s, t)
unfoldable pub contains : String → String → Bool
contains String.[] t = starts_with t String.[]
contains (String.◌∷◌ c s) t = starts_with t (String.◌∷◌ c s) || contains s t

-- `GetVersionsFromGitLocal`; `output` is what `git tag` prints.
unfoldable pub get_versions_from_git_local : String → Option (List String) → Found (List Version)
get_versions_from_git_local repo none = refused git_failed
get_versions_from_git_local repo (some lines) =
    if no_tags lines
    then found []
    else found (stable_sort (λ v. v) (local_versions (contains repo "tarantool") lines))

pub data SearchFlags : Type 0 where
  search_release search_debug search_all : SearchFlags

pub record BundleInfo : Type 0 where
  pub version : Version
  pub package_name : String
  pub release : String
  pub token : String

-- `compileVersionRegexp`, without ^ and $.
unfoldable pub bundle_regex : Regex
bundle_regex = group "tarball" (
    seq (literal "tarantool-enterprise-sdk-") (
      seq
        (group "version" (
          seq (many any_char) (
            seq (literal "r")
              (seq (class digit) (optional (seq (class digit) (optional (class digit))))))))
        (seq (many any_char) (literal ".tar.gz"))))

-- The version of a bundle; `none` for a name that does not match.
unfoldable pub parse_bundle : String → Option (Parsed Version)
parse_bundle pkg = elim (find_named_matches bundle_regex pkg) [
  | none ↦ none
  | some cs ↦ elim (parse (captured "version" cs)) [
    | parsed v ↦ some (parsed (record v { tarball = pkg }))
    | failed e ↦ some (failed e)
  ]
]

-- The switch of `getBundles`.
unfoldable pub passes_filter : SearchFlags → String → Bool
passes_filter search_release pkg = not (contains pkg "-debug-")
passes_filter search_debug pkg = contains pkg "-debug-"
passes_filter search_all pkg = true

-- The inner loop of `getBundles`, on the bundles so far.
unfoldable pub release_bundles :
    SearchFlags → String → List String → List BundleInfo → Found (List BundleInfo)
release_bundles flags release [] bundles = found bundles
release_bundles flags release (pkg ∷ pkgs) bundles = elim (parse_bundle pkg) [
  | none ↦ release_bundles flags release pkgs bundles
  | some p ↦ elim p [
    | failed e ↦ refused (bad_version e)
    | parsed v ↦
        let b : BundleInfo = record {
          version = v;
          package_name = "enterprise";
          release = release;
          token = "";
        } in
        release_bundles flags release pkgs
          (if passes_filter flags pkg then bundles ++ b ∷ [] else bundles)
  ]
]

unfoldable pub all_bundles :
    SearchFlags → List (String × List String) → List BundleInfo → Found (List BundleInfo)
all_bundles flags [] bundles = found bundles
all_bundles flags ((release, pkgs) ∷ rest) bundles =
    elim (release_bundles flags release pkgs bundles) [
      | found more ↦ all_bundles flags rest more
      | refused e ↦ refused e
      | panicked ↦ panicked
    ]

unfoldable pub local_bundles : List String → List BundleInfo → Found (List BundleInfo)
local_bundles [] bundles = found bundles
local_bundles (file ∷ files) bundles = elim (parse_bundle file) [
  | none ↦ local_bundles files bundles
  | some p ↦ elim p [
    | failed e ↦ refused (bad_version e)
    | parsed v ↦
        local_bundles files
          (bundles ++ record { version = v; package_name = ""; release = ""; token = "" } ∷ [])
  ]
]

-- The loops of `GetTarantoolBundleInfo`.
unfoldable pub find_version : String → List BundleInfo → Option BundleInfo
find_version expected [] = none
find_version expected (b ∷ rest) =
    let later = find_version expected rest in if b.version.str == expected then some b else later

unfoldable last_bundle : List BundleInfo → Found BundleInfo
last_bundle [] = panicked
last_bundle (b ∷ []) = found b
last_bundle (b ∷ c ∷ rest) = last_bundle (c ∷ rest)

-- `sort` is sort.Sort, which may put equal elements in any order.
module _ (sort : List BundleInfo → List BundleInfo) where
  unfoldable sorted_or_none : List BundleInfo → Found (List BundleInfo)
  sorted_or_none [] = refused no_packages
  sorted_or_none bundles = found (sort bundles)

  -- `getBundles`; the map is given as the list of its entries in the order of the `range`.
  unfoldable pub get_bundles : List (String × List String) → SearchFlags → Found (List BundleInfo)
  unfolding sorted_or_none
  get_bundles raw flags = elim (all_bundles flags raw []) [
    | found bundles ↦ sorted_or_none bundles
    | refused e ↦ refused e
    | panicked ↦ panicked
  ]

  -- `FetchBundlesInfoLocal`.
  unfoldable pub fetch_bundles_info_local : List String → Found (List BundleInfo)
  fetch_bundles_info_local files = elim (local_bundles files []) [
    | found bundles ↦ found (sort bundles)
    | refused e ↦ refused e
    | panicked ↦ panicked
  ]

  -- The error is dropped, and the slice is then nil.
  unfoldable bundles_or_nil : Found (List BundleInfo) → List BundleInfo
  bundles_or_nil (found bundles) = bundles
  bundles_or_nil _ = []

  found_or_none : Option BundleInfo → Found BundleInfo
  found_or_none (some b) = found b
  found_or_none none = refused no_version

  -- `GetTarantoolBundleInfo` with `local`.
  unfoldable pub get_local_bundle_info : List String → String → Found BundleInfo
  unfolding bundles_or_nil last_bundle found_or_none
  get_local_bundle_info files expected =
      let bundles = bundles_or_nil (fetch_bundles_info_local files) in
      if expected == "" then last_bundle bundles else found_or_none (find_version expected bundles)

  -- `GetTarantoolBundleInfo` without `local`; `reply` is what the server answers, with the token.
  unfoldable pub get_remote_bundle_info :
      Option (List (String × List String) × String) → String → Found BundleInfo
  unfolding found_or_none
  get_remote_bundle_info none expected = refused request_failed
  get_remote_bundle_info (some (reply, token)) expected = elim (get_bundles reply search_all) [
    | found bundles ↦ elim (find_version expected bundles) [
      | some b ↦ found (record b { token = token })
      | none ↦ refused no_version
    ]
    | refused e ↦ refused e
    | panicked ↦ panicked
  ]
