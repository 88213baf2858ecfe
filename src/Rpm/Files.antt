-- ===== src/Rpm/Files.antt =====
-- `getFilesInfo` of cli/pack/rpm_header.go: what the header says of each file of the package.
use tt.Prelude.{ℕ, suc, Option, none, some, List, [], ◌∷◌, ◌++◌, ℤ, pos, Bool, true, false, nat_eq}
use tt.Scan.{codes}
use tt.Rpm.Header.{Bytes, FilesInfo, to_int32, to_int16}
use tt.Rpm.Reader.{◌>>=◌}

-- What `Sys()` holds.
pub record SysStat : Type 0 where
  pub size : ℤ
  pub mode : ℤ
  pub ino : ℤ
  pub dev : ℤ
  pub rdev : ℤ

pub record FileInfo : Type 0 where
  pub is_regular : Bool
  pub is_symlink : Bool
  pub mod_time : ℤ
  pub sys : Option SysStat

pub record PackFileInfo : Type 0 where
  pub owner : Bytes
  pub group : Bytes

-- The files of the package directory, and what path/filepath makes of a path: `lstat`, `md5_hex` and
-- `eval_symlink` answer for a path relative to that directory, and `none` is an error. The change of
-- directory around a symbolic link is part of `eval_symlink`.
pub record PackageDir : Type 0 where
  pub lstat : Bytes → Option FileInfo
  pub md5_hex : Bytes → Option Bytes
  pub eval_symlink : Bytes → Option Bytes
  pub dir : Bytes → Bytes
  pub base : Bytes → Bytes
  pub pkg_files : Bytes → Option PackFileInfo

-- `dirName == fileDir`
unfoldable pub bytes_eq : Bytes → Bytes → Bool
bytes_eq [] [] = true
bytes_eq (a ∷ x) (b ∷ y) = elim (nat_eq a b) [ true ↦ bytes_eq x y | false ↦ false ]
bytes_eq _ _ = false

-- The slice with the directory in it, and the index of the directory.
unfoldable pub add_dir_and_get_index : List Bytes → Bytes → List Bytes × ℕ
add_dir_and_get_index [] file_dir = (file_dir ∷ [], 0)
add_dir_and_get_index (d ∷ ds) file_dir = elim (bytes_eq d file_dir) [
  | true ↦ (d ∷ ds, 0)
  | false ↦ let (ds', i) = add_dir_and_get_index ds file_dir in (d ∷ ds', suc i)
]

abbrev pub no_files : FilesInfo
no_files = record {
  base_names = [];
  dir_names = [];
  dir_indexes = [];
  file_user_names = [];
  file_group_names = [];
  file_sizes = [];
  file_modes = [];
  file_inodes = [];
  file_devices = [];
  file_mtimes = [];
  file_langs = [];
  file_rdevs = [];
  file_link_tos = [];
  file_flags = [];
  file_digests = [];
}

module _ (fs : PackageDir) where
  open fs use {lstat, md5_hex, eval_symlink, dir, base, pkg_files}

  unfoldable pub file_dir : Bytes → Bytes
  file_dir path = b'/' ∷ (dir path ++ (b'/' ∷ []))

  -- The flag and the digest of a file.
  unfoldable pub flag_and_digest : FileInfo → Bytes → Option (ℤ × Bytes)
  flag_and_digest file path = elim file.is_regular [
    | false ↦ some (pos 0, [])
    | true ↦ do digest ← md5_hex path; some (pos 0x10, digest)
  ]

  unfoldable pub link_to : FileInfo → Bytes → Option Bytes
  link_to file path = elim file.is_symlink [ false ↦ some [] | true ↦ eval_symlink path ]

  -- The owner and the group, "root" where the package does not set them.
  unfoldable pub owner_and_group : Bytes → Bytes × Bytes
  owner_and_group path = elim (pkg_files path) [
    | some p ↦ (p.owner, p.group)
    | none ↦ (codes "root", codes "root")
  ]

  -- One round of the loop.
  unfoldable pub add_file : Bytes → FilesInfo → Option FilesInfo
  add_file path info = do
    file ← lstat path
    (flag, digest) ← flag_and_digest file path
    let (dirs, i) = add_dir_and_get_index info.dir_names (file_dir path)
    sys ← file.sys
    link ← link_to file path
    some (record {
      base_names = info.base_names ++ (base path ∷ []);
      dir_names = dirs;
      dir_indexes = info.dir_indexes ++ (to_int32 (pos i) ∷ []);
      file_user_names = info.file_user_names ++ ((owner_and_group path).0 ∷ []);
      file_group_names = info.file_group_names ++ ((owner_and_group path).1 ∷ []);
      file_sizes = info.file_sizes ++ (to_int32 sys.size ∷ []);
      file_modes = info.file_modes ++ (to_int16 sys.mode ∷ []);
      file_inodes = info.file_inodes ++ (to_int32 sys.ino ∷ []);
      file_devices = info.file_devices ++ (to_int32 sys.dev ∷ []);
      file_mtimes = info.file_mtimes ++ (to_int32 file.mod_time ∷ []);
      file_langs = info.file_langs ++ ([] ∷ []);
      file_rdevs = info.file_rdevs ++ (to_int16 sys.rdev ∷ []);
      file_link_tos = info.file_link_tos ++ (link ∷ []);
      file_flags = info.file_flags ++ (flag ∷ []);
      file_digests = info.file_digests ++ (digest ∷ []);
    })

  unfoldable pub add_files : List Bytes → FilesInfo → Option FilesInfo
  add_files [] info = some info
  add_files (path ∷ paths) info = do next ← add_file path info; add_files paths next

  unfoldable pub get_files_info : List Bytes → Option FilesInfo
  get_files_info paths = add_files paths no_files
