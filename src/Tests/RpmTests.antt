-- ===== src/Tests/RpmTests.antt =====
-- The packing of cli/pack/rpm_tagset.go at the example of its comment, and the theorems at it.
use tt.Prelude.{
  ℕ, ◌^◌, ◌<◌, ◌≡◌, refl, subst, none, some, List, [], ◌∷◌, pos, negsuc, length, arith, true, false,
}
use tt.Scan.{codes}
use tt.Rpm.Words.{bits, signed, word32}
use tt.Rpm.{
  Tag, string, int32, text, int32s, ok, pack_tag_set, pack_tags, pack_tag, pack_value, pack_int32,
  pack_each, terminated, boundaries, aligned, align_data, zeros, type_code, get_packed_tag_index,
  get_tag_set_header, region_data, negated, assemble,
}
use tt.Rpm.Reader.{read_tag_set}
use tt.Rpm.Values.{IsStorable}
use tt.Rpm.RoundTrip.{region_tag, pack_tag_set-read}
use tt.Rpm.Dirs.{IsDistinct}
use tt.Rpm.Located.{AreLocated, HasLength, get_files_info-AreLocated}
use tt.Rpm.Header.{to_int32, to_int16, FilesInfo}
use tt.Rpm.Files.{
  PackageDir, get_files_info, add_files, add_file, file_dir, flag_and_digest, link_to,
  owner_and_group, add_dir_and_get_index, bytes_eq,
}
use tt.Rpm.Lead.{gen_rpm_lead}

abbrev name_tag : Tag
name_tag = record { id = pos 1000; type = string; value = text (codes "abcd") }

abbrev dir_indexes_tag : Tag
dir_indexes_tag = record {
  id = pos 1116;
  type = int32;
  value = int32s (pos 1 ∷ pos 2 ∷ pos 3 ∷ []);
}

-- The bytes of the comment, in decimal.
abbrev documented : List ℕ
documented =
    0x8e ∷ 0xad ∷ 0xe8 ∷ 1 ∷ 0 ∷ 0 ∷ 0 ∷ 0 ∷ 0 ∷ 0 ∷ 0 ∷ 3 ∷ 0 ∷ 0 ∷ 0 ∷ 0x24 ∷ 0 ∷ 0 ∷ 0 ∷ 0x3f ∷ 0
    ∷ 0 ∷ 0 ∷ 7 ∷ 0 ∷ 0 ∷ 0 ∷ 0x14 ∷ 0 ∷ 0 ∷ 0 ∷ 0x10 ∷ 0 ∷ 0 ∷ 3 ∷ 0xe8 ∷ 0 ∷ 0 ∷ 0 ∷ 6 ∷ 0 ∷ 0 ∷ 0
    ∷ 0 ∷ 0 ∷ 0 ∷ 0 ∷ 1 ∷ 0 ∷ 0 ∷ 4 ∷ 0x5c ∷ 0 ∷ 0 ∷ 0 ∷ 4 ∷ 0 ∷ 0 ∷ 0 ∷ 8 ∷ 0 ∷ 0 ∷ 0 ∷ 3 ∷ 0x61
    ∷ 0x62 ∷ 0x63 ∷ 0x64 ∷ 0 ∷ 0 ∷ 0 ∷ 0 ∷ 0 ∷ 0 ∷ 0 ∷ 1 ∷ 0 ∷ 0 ∷ 0 ∷ 2 ∷ 0 ∷ 0 ∷ 0 ∷ 3 ∷ 0 ∷ 0 ∷ 0
    ∷ 0x3f ∷ 0 ∷ 0 ∷ 0 ∷ 7 ∷ 0xff ∷ 0xff ∷ 0xff ∷ 0xd0 ∷ 0 ∷ 0 ∷ 0 ∷ 0x10 ∷ []

example_packed : pack_tag_set (name_tag ∷ dir_indexes_tag ∷ []) (pos 63) ≡ ok documented
unfolding pack_tag_set pack_tags pack_tag pack_value pack_int32 pack_each terminated boundaries
    aligned align_data zeros type_code get_packed_tag_index get_tag_set_header region_data negated
    assemble bits word32
example_packed = refl

short_example :
    (out : List ℕ)
    → pack_tag_set (name_tag ∷ dir_indexes_tag ∷ []) (pos 63) ≡ ok out
    → length out < 2 ^ 32
short_example out h =
    let same : documented ≡ out = cc (h, example_packed) in
    subst (λ (o : List ℕ). length o < 2 ^ 32) same (omega arith)

pack_tag_set-read_example :
    (out : List ℕ) × (pack_tag_set (name_tag ∷ dir_indexes_tag ∷ []) (pos 63) ≡ ok out)
    × (read_tag_set out ≡ some (region_tag (pos 63) 3 ∷ name_tag ∷ dir_indexes_tag ∷ []))
pack_tag_set-read_example =
    pack_tag_set-read (name_tag ∷ dir_indexes_tag ∷ []) (pos 63)
      (
        (omega arith, IsStorable.of_string _ (omega arith)),
        ((omega arith, IsStorable.of_int32 _ (omega arith)), tt),
      )
      (omega arith) short_example

-- A name of 67 bytes does not fit into the lead.
long_name : gen_rpm_lead (zeros 67) ≡ none
unfolding gen_rpm_lead zeros
long_name = refl

abbrev one_file : PackageDir
one_file = record {
  lstat = λ path. some (record {
    is_regular = true;
    is_symlink = false;
    mod_time = pos 7;
    sys = some (record { size = pos 1; mode = pos 33188; ino = pos 5; dev = pos 1; rdev = pos 0 });
  });
  md5_hex = λ path. some (codes "d4");
  eval_symlink = λ path. none;
  dir = λ path. codes "usr";
  base = λ path. path;
  pkg_files = λ path. none;
}

abbrev two_paths : List (List ℕ)
two_paths = codes "a" ∷ codes "b" ∷ []

abbrev twice : {A : Type 0} → A → List A
twice a = a ∷ a ∷ []

-- A mode of a regular file does not fit into 16 bits and comes out negative.
abbrev two_files : FilesInfo
two_files = record {
  base_names = two_paths;
  dir_names = codes "/usr/" ∷ [];
  dir_indexes = twice (pos 0);
  file_user_names = twice (codes "root");
  file_group_names = twice (codes "root");
  file_sizes = twice (pos 1);
  file_modes = twice (negsuc 32347);
  file_inodes = twice (pos 5);
  file_devices = twice (pos 1);
  file_mtimes = twice (pos 7);
  file_langs = twice [];
  file_rdevs = twice (pos 0);
  file_link_tos = twice [];
  file_flags = twice (pos 16);
  file_digests = twice (codes "d4");
}

get_files_info-AreLocated_example :
    AreLocated one_file two_files.dir_names two_paths two_files.dir_indexes
    × IsDistinct two_files.dir_names
    × HasLength 2 two_files
unfolding get_files_info add_files add_file file_dir flag_and_digest link_to owner_and_group
    add_dir_and_get_index bytes_eq to_int32 to_int16 signed bits
get_files_info-AreLocated_example =
    get_files_info-AreLocated one_file two_paths two_files (omega arith) refl
