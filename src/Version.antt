-- ===== src/Version.antt =====
-- cli/version/version_tools.go, and `Less` of cli/search/bundle.go.
pub mod Order
pub mod Sort
pub mod Precedes
use Prim.Native.Char.{code}
use Prim.Native.String.{◌++◌ as join_text}
use tt.Prelude.{
  ℕ, String, Bool, true, false, Option, some, none, List, [], ◌∷◌, length, ltb, leb, nat_eq, ◌==◌,
  if◌then◌else◌,
}
use tt.Scan.{parse_uint}
use tt.Regex.{
  Regex, literal, many1, seq, alt, optional, group, Captures, captured, find_named_matches,
  any_char, digit, hex_digit, size,
}

pub data ReleaseType : Type 0 where
  type_nightly type_alpha type_beta type_rc type_release : ReleaseType

-- uint64(Type)
unfoldable pub type_number : ReleaseType → ℕ
type_number type_nightly = 0
type_number type_alpha = 1
type_number type_beta = 2
type_number type_rc = 3
type_number type_release = 4

pub record Release : Type 0 where
  pub release_type : ReleaseType
  pub num : ℕ
  pub str : String

pub record Version : Type 0 where
  pub major : ℕ
  pub minor : ℕ
  pub patch : ℕ
  pub additional : ℕ
  pub revision : ℕ
  pub release : Release
  pub hash : String
  pub str : String
  pub tarball : String
  pub build_name : String

pub data VersionError : Type 0 where
  bad_format bad_number unknown_release short_hash bad_hash : String → VersionError

pub data Parsed {ℓ} (A : Type ℓ) : Type ℓ where
  parsed : A → Parsed A
  failed : VersionError → Parsed A

infixl 10 ◌>>=◌
abbrev pub ◌>>=◌ {ℓ κ} : {A : Type ℓ} {B : Type κ} → Parsed A → (A → Parsed B) → Parsed B
parsed a >>= f = f a
failed e >>= f = failed e

-- `AtoiUint64` of cli/util/util.go.
unfoldable pub atoi_uint64 : String → Parsed ℕ
atoi_uint64 s = elim (parse_uint s) [ some n ↦ parsed n | none ↦ failed (bad_number s) ]

-- The switch of `newRelease`.
unfoldable pub release_type_of : String → Option ReleaseType
release_type_of s =
    if s == "rc"
    then some type_rc
    else if s == "alpha"
    then some type_alpha
    else if s == "beta"
    then some type_beta
    else if s == "entrypoint"
    then some type_nightly
    else none

-- `newRelease`.
unfoldable pub new_release : String → String → Parsed Release
unfolding release_type_of
new_release release release_num =
    if release == ""
    then parsed (record { release_type = type_release; num = 0; str = release })
    else elim (release_type_of release) [
      | none ↦ failed (unknown_release release)
      | some t ↦
          if release_num == ""
          then parsed (record { release_type = t; num = 0; str = release })
          else do
            n ← atoi_uint64 release_num
            parsed (record { release_type = t; num = n; str = join_text release release_num })
    ]

-- The expression of `Parse`, without ^ and $.
unfoldable pub version_regex : Regex
version_regex = seq (optional (seq (group "buildname" (many1 any_char)) (literal "-"))) (
    seq (optional (literal "v")) (
      seq (group "major" (many1 digit)) (
        seq (literal ".") (
          seq (group "minor" (many1 digit)) (
            seq (literal ".") (
              seq (group "patch" (many1 digit)) (
                seq
                  (optional (
                    seq (literal "-") (
                      seq
                        (group "release" (
                          alt (literal "entrypoint")
                            (alt (literal "rc") (alt (literal "alpha") (literal "beta")))))
                        (optional (group "releaseNum" (many1 digit))))))
                  (seq (optional (seq (literal "-") (group "additional" (many1 digit)))) (
                    seq
                      (optional
                        (seq (literal "-") (group "hash" (seq (literal "g") (many1 hex_digit)))))
                      (seq (optional (seq (literal "-r") (group "revision" (many1 digit))))
                        (optional (alt (literal "-gc64") (literal "-nogc64")))))))))))))

-- A number that need not be there.
unfoldable pub atoi_or_zero : String → Parsed ℕ
atoi_or_zero s = if s == "" then parsed 0 else atoi_uint64 s

-- What `Parse` makes of the groups.
unfoldable pub version_of : String → Captures → Parsed Version
unfolding atoi_or_zero
version_of str cs = do
  major ← atoi_uint64 (captured "major" cs)
  minor ← atoi_uint64 (captured "minor" cs)
  patch ← atoi_uint64 (captured "patch" cs)
  release ← new_release (captured "release" cs) (captured "releaseNum" cs)
  additional ← atoi_or_zero (captured "additional" cs)
  revision ← atoi_or_zero (captured "revision" cs)
  parsed (record {
    major = major;
    minor = minor;
    patch = patch;
    additional = additional;
    revision = revision;
    release = release;
    hash = captured "hash" cs;
    str = str;
    tarball = "";
    build_name = captured "buildname" cs;
  })

-- `Parse`.
unfoldable pub parse : String → Parsed Version
parse str = elim (find_named_matches version_regex str) [
  | none ↦ failed (bad_format str)
  | some cs ↦ version_of str cs
]

-- The slice that `IsLess` and `Less` compare.
unfoldable pub numbers : Version → List ℕ
numbers v =
    v.major
    ∷ v.minor
    ∷ v.patch
    ∷ type_number v.release.release_type
    ∷ v.release.num
    ∷ v.additional
    ∷ v.revision
    ∷ []

-- The loop of `IsLess`; an element that is missing counts as 0.
unfoldable pub less_numbers : List ℕ → List ℕ → Bool
less_numbers [] [] = false
less_numbers (a ∷ l) [] = if nat_eq a 0 then less_numbers l [] else ltb a 0
less_numbers [] (b ∷ m) = if nat_eq 0 b then less_numbers [] m else ltb 0 b
less_numbers (a ∷ l) (b ∷ m) = if nat_eq a b then less_numbers l m else ltb a b

-- `IsLess`, and `Less` of cli/search/bundle.go, which has the same text.
unfoldable pub is_less : Version → Version → Bool
is_less left right = less_numbers (numbers left) (numbers right)

unfoldable pub less : Version → Version → Bool
less left right = less_numbers (numbers left) (numbers right)
