-- ===== src/Rpm/Header.antt =====
-- The header of an RPM package, cli/pack/rpm_header.go. A text is the list of its bytes.
use tt.Prelude.{
  ℕ, ◌+◌, ◌^◌, Option, none, some, List, [], ◌∷◌, ◌++◌, ℤ, pos, length, nat_eq, if◌then◌else◌,
  String, Bool, true, false, not, ◌==◌,
}
use tt.Scan.{codes}
use tt.Version.{Version}
use tt.Rpm.Words.{bits, signed}
use tt.Rpm.{Tag, string, string_array, int16, int32, text, texts, int16s, int32s}
use tt.Rpm.Reader.{◌>>=◌}

abbrev pub Bytes : Type 0
Bytes = List ℕ

-- `int32(x)`
unfoldable pub to_int32 : ℤ → ℤ
to_int32 z = signed (2 ^ 32) (bits (2 ^ 32) z)

unfoldable pub to_int16 : ℤ → ℤ
to_int16 z = signed (2 ^ 16) (bits (2 ^ 16) z)

pub record FilesInfo : Type 0 where
  pub base_names : List Bytes
  pub dir_names : List Bytes
  pub dir_indexes : List ℤ
  pub file_user_names : List Bytes
  pub file_group_names : List Bytes
  pub file_sizes : List ℤ
  pub file_modes : List ℤ
  pub file_inodes : List ℤ
  pub file_devices : List ℤ
  pub file_mtimes : List ℤ
  pub file_langs : List Bytes
  pub file_rdevs : List ℤ
  pub file_link_tos : List Bytes
  pub file_flags : List ℤ
  pub file_digests : List Bytes

-- rpmSenseLess, rpmSenseGreater and rpmSenseEqual are three bits, so that `|` is a sum.
unfoldable pub get_rpm_relation : String → ℤ
get_rpm_relation relation =
    if relation == ">"
    then pos 0x04
    else if relation == ">="
    then pos (0x04 + 0x08)
    else if relation == "<"
    then pos 0x02
    else if relation == "<="
    then pos (0x02 + 0x08)
    else if relation == "="
    then pos 0x08
    else if relation == "=="
    then pos 0x08
    else pos 0

pub record Relation : Type 0 where
  pub relation : String
  pub version : Bytes

pub record PackDependency : Type 0 where
  pub name : Bytes
  pub relations : List Relation

-- The three slices that `addDependenciesRPM` fills.
pub record Requires : Type 0 where
  pub names : List Bytes
  pub versions : List Bytes
  pub flags : List ℤ

unfoldable pub require : Bytes → Bytes → ℤ → Requires → Requires
require name version flag r = record {
  names = r.names ++ (name ∷ []);
  versions = r.versions ++ (version ∷ []);
  flags = r.flags ++ (flag ∷ []);
}

unfoldable pub add_relations : Bytes → List Relation → Requires → Requires
add_relations name [] r = r
add_relations name (x ∷ xs) r =
    add_relations name xs (require name x.version (get_rpm_relation x.relation) r)

unfoldable pub add_requires : List PackDependency → Requires → Requires
add_requires [] r = r
add_requires (dep ∷ deps) r =
    let with_relations = add_relations dep.name dep.relations r in
    add_requires deps (
      if nat_eq (length dep.relations) 0
      then require dep.name [] (pos 0) with_relations
      else with_relations)

unfoldable pub requires_of : List PackDependency → Requires
requires_of deps = add_requires deps (record { names = []; versions = []; flags = [] })

abbrev pub text_tag : ℕ → Bytes → Tag
text_tag id s = record { id = pos id; type = string; value = text s }

abbrev pub texts_tag : ℕ → List Bytes → Tag
texts_tag id ss = record { id = pos id; type = string_array; value = texts ss }

abbrev pub int32s_tag : ℕ → List ℤ → Tag
int32s_tag id zs = record { id = pos id; type = int32; value = int32s zs }

abbrev pub int16s_tag : ℕ → List ℤ → Tag
int16s_tag id zs = record { id = pos id; type = int16; value = int16s zs }

unfoldable pub add_dependencies_rpm : List PackDependency → List Tag → List Tag
add_dependencies_rpm [] tags = tags
add_dependencies_rpm (dep ∷ deps) tags =
    let r = requires_of (dep ∷ deps) in
    tags ++ (texts_tag 1049 r.names ∷ int32s_tag 1048 r.flags ∷ texts_tag 1050 r.versions ∷ [])

-- What os.ReadFile answers, and the two scripts that are embedded in the program.
pub record Scripts : Type 0 where
  pub read_file : Bytes → Option Bytes
  pub pre_inst_content : Bytes
  pub post_inst_content : Bytes

-- The embedded script, and a line feed and the user's script where a file is to be read.
unfoldable pub with_user_script : Scripts → Bytes → Bool → Bytes → Option Bytes
with_user_script scripts content given path = elim given [
  | false ↦ some content
  | true ↦ elim (scripts.read_file path) [
    | none ↦ none
    | some user ↦ some (content ++ (0x0a ∷ user))
  ]
]

-- Both files are read where a pre-install script is given. The tags are left as they were on an
-- error.
unfoldable pub add_pre_and_post_install_scripts_rpm :
    Scripts → Bytes → Bytes → List Tag → Option (List Tag)
add_pre_and_post_install_scripts_rpm scripts pre_inst post_inst tags = do
  let given = not (nat_eq (length pre_inst) 0)
  pre ← with_user_script scripts scripts.pre_inst_content given pre_inst
  post ← with_user_script scripts scripts.post_inst_content given post_inst
  some (tags ++ (text_tag 1023 pre ∷ text_tag 1024 post ∷ []))

-- What `genRpmHeader` asks for, each with the error that stops it: digests, sizes, the names of the
-- package and its dependencies.
pub record Sources : Type 0 where
  pub payload_digest : Option Bytes
  pub payload_size : Option ℤ
  pub files_info : Option FilesInfo
  pub version : Option Version
  pub package_name : Option Bytes
  -- runtime.GOARCH
  pub goarch : String
  pub deps : Option (List PackDependency)
  pub scripts : Scripts
  pub pre_inst : Bytes
  pub post_inst : Bytes
  -- strconv.FormatUint(n, 10)
  pub format_uint : ℕ → Bytes

unfoldable pub get_arch : String → Bytes
get_arch goarch =
    if goarch == "amd64"
    then codes "x86_64"
    else if goarch == "386"
    then codes "i386"
    else codes "noarch"

-- strings.Join of the three numbers with "."
unfoldable pub version_str : (ℕ → Bytes) → Version → Bytes
version_str format v = format v.major ++ (b'.' ∷ (format v.minor ++ (b'.' ∷ format v.patch)))

-- The tags of the package itself.
unfoldable pub package_tags : Bytes → Bytes → Bytes → Bytes → List Tag
package_tags name version release arch =
    text_tag 1000 name
    ∷ text_tag 1001 version
    ∷ text_tag 1002 release
    ∷ text_tag 1004 []
    ∷ text_tag 1005 []
    ∷ text_tag 1014 (codes "N/A")
    ∷ text_tag 1016 (codes "None")
    ∷ text_tag 1021 (codes "linux")
    ∷ text_tag 1022 arch
    ∷ text_tag 1124 (codes "cpio")
    ∷ text_tag 1125 (codes "gzip")
    ∷ text_tag 1126 (codes "5")
    ∷ text_tag 1085 (codes "/bin/sh")
    ∷ text_tag 1086 (codes "/bin/sh")
    ∷ []

-- The tags of its files.
unfoldable pub file_tags : FilesInfo → List Tag
file_tags info =
    texts_tag 1118 info.dir_names
    ∷ texts_tag 1117 info.base_names
    ∷ int32s_tag 1116 info.dir_indexes
    ∷ texts_tag 1039 info.file_user_names
    ∷ texts_tag 1040 info.file_group_names
    ∷ int32s_tag 1028 info.file_sizes
    ∷ int16s_tag 1030 info.file_modes
    ∷ int32s_tag 1096 info.file_inodes
    ∷ int32s_tag 1095 info.file_devices
    ∷ int16s_tag 1033 info.file_rdevs
    ∷ int32s_tag 1034 info.file_mtimes
    ∷ int32s_tag 1037 info.file_flags
    ∷ texts_tag 1097 info.file_langs
    ∷ texts_tag 1035 info.file_digests
    ∷ texts_tag 1036 info.file_link_tos
    ∷ []

-- The tags of its payload; 8 is hashAlgoSHA256.
unfoldable pub payload_tags : ℤ → Bytes → List Tag
payload_tags size digest =
    int32s_tag 1009 (to_int32 size ∷ [])
    ∷ texts_tag 5092 (digest ∷ [])
    ∷ int32s_tag 5093 (pos 8 ∷ [])
    ∷ []

unfoldable pub gen_rpm_header : Sources → Option (List Tag)
gen_rpm_header s = do
  digest ← s.payload_digest
  size ← s.payload_size
  info ← s.files_info
  v ← s.version
  name ← s.package_name
  let release_str = s.format_uint v.release.num
  let own = package_tags name (version_str s.format_uint v) release_str (get_arch s.goarch)
  let tags = own ++ (file_tags info ++ payload_tags size digest)
  deps ← s.deps
  add_pre_and_post_install_scripts_rpm s.scripts s.pre_inst s.post_inst
      (add_dependencies_rpm deps tags)
