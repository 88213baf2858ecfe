-- ===== src/Storage.antt =====
-- lib/cluster/storages.go, lib/cluster/integrity.go and lib/cluster/file.go, and what the clients of
-- the remote storages share.
pub mod Etcd
pub mod Publish
pub mod Cas
pub mod Swap
pub mod Loop
pub mod Whole
pub mod Signed
pub mod Replies
pub mod Tarantool
pub mod Unnoticed
pub mod Exchange
pub mod Puts
pub mod Exchanged
pub mod Published
pub mod Checked
pub mod Paths
pub mod SignOps
pub mod Key
pub mod HashMap
pub mod Named
pub mod Sealed
use tt.Prelude.{
  ℕ, String, ◌<>◌, Bool, true, false, Option, none, some, List, [], ◌∷◌, if◌then◌else◌, nat_eq,
  ◌==◌,
}
use tt.Texts.{cut_prefix, trim_slashes, split_slash}
use tt.Collect.{SourceData}

unfoldable pub get_config_prefix : String → String
get_config_prefix base = trim_slashes base <> "/config/"

unfoldable pub get_config_key : String → String → String
get_config_key base key = get_config_prefix base <> key

unfoldable pub get_hashes_prefix : String → String
get_hashes_prefix base = trim_slashes base <> "/hashes/"

unfoldable pub get_hashes_key : String → String → String → String
get_hashes_key base hash key = get_hashes_prefix base <> (hash <> ("/" <> key))

unfoldable pub get_sign_prefix : String → String
get_sign_prefix base = trim_slashes base <> "/sig/"

unfoldable pub get_sign_key : String → String → String
get_sign_key base key = get_sign_prefix base <> key

-- `parseHashPath`: the hash and the key, where the path has them.
unfoldable pub parse_hash_path : String → String → Option (String × String)
parse_hash_path path base = elim (cut_prefix (get_hashes_prefix base) path) [
  | none ↦ none
  | some hash_path ↦ split_slash hash_path
]

-- `GetStorageKey`
unfoldable pub get_storage_key : String → String → Option String
get_storage_key base source = cut_prefix (get_config_prefix base) source

pub data StorageError : Type 0 where
  revision_not_supported no_data empty_path fetch_failed put_failed missing_responses : StorageError
  not_found too_many_responses no_hashes no_signature too_many_signatures : StorageError
  deadline_exceeded sign_failed wrong_revision read_failed write_failed unexpected_response :
      StorageError
  check_failed missing_signature : String → StorageError

pub data Fetched {ℓ} (A : Type ℓ) : Type ℓ where
  fetched : A → Fetched A
  failed : StorageError → Fetched A

-- A map of hashes, as the list of its entries in the order of a `range`, and a signature.
abbrev pub Hashes : Type 0
Hashes = List (String × String)

abbrev pub SignFunc : Type 0
SignFunc = String → Option (Hashes × String)

-- Whether the check finds no error.
abbrev pub CheckFunc : Type 0
CheckFunc = String → Hashes → String → Bool

-- `FileCollector.Collect`; `read` reads the whole file.
unfoldable pub collect_file : (String → Option String) → String → Fetched (List SourceData)
collect_file read path = elim (read path) [
  | none ↦ failed read_failed
  | some value ↦ fetched (record { source = path; value = value; revision = 0 } ∷ [])
]

-- `FileDataPublisher.Publish` on the contents of all files; `write` is os.WriteFile, with whether it
-- succeeds.
unfoldable pub publish_file {ℓ} :
    {Files : Type ℓ}
    → (String → String → Files → Files × Bool)
    → String
    → ℕ
    → Option String
    → Files
    → Files × Option StorageError
publish_file write path revision contents files =
    if nat_eq revision 0
    then if path == "" then (files, some empty_path) else elim contents [
      | none ↦ (files, some no_data)
      | some text ↦
          let (written, works) = write path text files in
          if works then (written, none) else (written, some write_failed)
    ]
    else (files, some revision_not_supported)
