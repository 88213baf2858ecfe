-- ===== src/Rpm/Located.antt =====
-- `getFilesInfo` of cli/pack/rpm_header.go: what its lists say of the files.
use mathlib.Core.List.{append_assoc, append-nil}
use tt.Prelude.{
  Option-cases, ℕ, ◌+◌, ◌^◌, ◌≤◌, ◌<◌, ◌≡◌, refl, ap, subst, sym, some, List, [], ◌∷◌, ◌++◌, ℤ, pos,
  length, length-append, get_elem?, arith, inl, inr,
}
use tt.Rpm.Dirs.{IsDistinct, added, added-IsDistinct}
use tt.Rpm.Words.{bits, signed}
use tt.Rpm.Header.{Bytes, FilesInfo, to_int32}
use tt.Rpm.Files.{
  PackageDir, add_dir_and_get_index, file_dir, add_file, add_files, get_files_info, no_files,
}

-- The index of each path is the one of its directory.
abbrev pub AreLocated : PackageDir → List Bytes → List Bytes → List ℤ → Type 0
AreLocated fs dirs [] [] = Unit {0}
AreLocated fs dirs [] (z ∷ zs) = ⊥
AreLocated fs dirs (p ∷ ps) [] = ⊥
AreLocated fs dirs (p ∷ ps) (z ∷ zs) =
    ((i : ℕ) × (z ≡ pos i) × (get_elem? dirs i ≡ some (file_dir fs p))) × AreLocated fs dirs ps zs

length_snoc : {A : Type 0} (xs : List A) (x : A) → length (xs ++ (x ∷ [])) ≡ length xs + 1
length_snoc xs x = omega (arith, length-append xs (x ∷ []))

-- Every list of the header's files has so many items.
abbrev pub HasLength : ℕ → FilesInfo → Type 0
HasLength n info =
    (length info.base_names ≡ n)
    × (length info.dir_indexes ≡ n)
    × (length info.file_user_names ≡ n)
    × (length info.file_group_names ≡ n)
    × (length info.file_sizes ≡ n)
    × (length info.file_modes ≡ n)
    × (length info.file_inodes ≡ n)
    × (length info.file_devices ≡ n)
    × (length info.file_mtimes ≡ n)
    × (length info.file_langs ≡ n)
    × (length info.file_rdevs ≡ n)
    × (length info.file_link_tos ≡ n)
    × (length info.file_flags ≡ n)
    × (length info.file_digests ≡ n)

module _ (fs : PackageDir) where
  located_more :
      (dirs dirs' : List Bytes) (ps : List Bytes) (zs : List ℤ) (p : Bytes) (i : ℕ)
      → ((j : ℕ) (x : Bytes) → get_elem? dirs j ≡ some x → get_elem? dirs' j ≡ some x)
      → get_elem? dirs' i ≡ some (file_dir fs p)
      → AreLocated fs dirs ps zs
      → AreLocated fs dirs' (ps ++ (p ∷ [])) (zs ++ (pos i ∷ []))
  located_more dirs dirs' [] [] p i kept found h = ((i, refl, found), tt)
  located_more dirs dirs' [] (z ∷ zs) p i kept found h = absurd h
  located_more dirs dirs' (q ∷ ps) [] p i kept found h = absurd h
  located_more dirs dirs' (q ∷ ps) (z ∷ zs) p i kept found h = (
    (h.0.0, h.0.1, kept h.0.0 (file_dir fs q) h.0.2),
    located_more dirs dirs' ps zs p i kept found h.1,
  )

  add_file_dirs :
      (path : Bytes) (info next : FilesInfo)
      → add_file fs path info ≡ some next
      → (next.dir_names ≡ (add_dir_and_get_index info.dir_names (file_dir fs path)).0)
        × (next.dir_indexes
            ≡ info.dir_indexes
              ++ (to_int32 (pos (add_dir_and_get_index info.dir_names (file_dir fs path)).1) ∷ []))
  unfolding add_file
  add_file_dirs path info next h = ground (arith, h)

  small_index : (i : ℕ) → i < 2 ^ 31 → to_int32 (pos i) ≡ pos i
  unfolding to_int32 signed bits
  small_index i h = ground arith

  add_file-located :
      (path : Bytes) (done : List Bytes) (info next : FilesInfo)
      → AreLocated fs info.dir_names done info.dir_indexes
      → length info.dir_names < 2 ^ 31
      → add_file fs path info ≡ some next
      → AreLocated fs next.dir_names (done ++ (path ∷ [])) next.dir_indexes
  add_file-located path done info next h short run =
      let a = added info.dir_names (file_dir fs path) in
      let (dirs, indexes) = add_file_dirs path info next run in
      let i = (add_dir_and_get_index info.dir_names (file_dir fs path)).1 in
      rw (dirs, indexes, small_index i (omega (arith, a.bounded, short)))
        (located_more info.dir_names (add_dir_and_get_index info.dir_names (file_dir fs path)).0
          done info.dir_indexes path i a.kept a.found h)

  add_file-HasLength :
      (path : Bytes) (n : ℕ) (info next : FilesInfo)
      → HasLength n info
      → add_file fs path info ≡ some next
      → HasLength (n + 1) next
  unfolding add_file
  add_file-HasLength path n info next h run = grind (arith, run, length_snoc)

  -- What holds after the files of some paths.
  record IsUpTo (done : List Bytes) (info : FilesInfo) : Type 0 where
    located : AreLocated fs info.dir_names done info.dir_indexes
    distinct : IsDistinct info.dir_names
    lengths : HasLength (length done) info
    few : length info.dir_names ≤ length done

  add_file-IsUpTo :
      (path : Bytes) (done : List Bytes) (info next : FilesInfo)
      → IsUpTo done info
      → length done < 2 ^ 31
      → add_file fs path info ≡ some next
      → IsUpTo (done ++ (path ∷ [])) next
  add_file-IsUpTo path done info next h short run =
      let (dirs, _) = add_file_dirs path info next run in
      let a = added info.dir_names (file_dir fs path) in
      let few = h.few in
      record {
        located = add_file-located path done info next h.located (omega arith) run;
        distinct = rw dirs (added-IsDistinct info.dir_names (file_dir fs path) h.distinct);
        lengths =
            rw (length_snoc done path)
              (add_file-HasLength path (length done) info next h.lengths run);
        few = omega (arith, a.grown, length_snoc done path, ap length dirs, few);
      }

  add_files-IsUpTo :
      (paths done : List Bytes) (info final : FilesInfo)
      → IsUpTo done info
      → length done + length paths < 2 ^ 31
      → add_files fs paths info ≡ some final
      → IsUpTo (done ++ paths) final
  unfolding add_files
  add_files-IsUpTo [] done info final h short run =
      let same : info ≡ final = cc run in rw append-nil (subst (IsUpTo done) same h)
  add_files-IsUpTo (path ∷ paths) done info final h short run =
      elim (Option-cases (add_file fs path info)) [
        | inl stops ↦ absurd (ground (arith, run, stops))
        | inr (next, goes) ↦
            let rest : add_files fs paths next ≡ some final = ground (arith, run, goes) in
            let more = length_snoc done path in
            rw (sym (append_assoc done (path ∷ []) paths)) (
              add_files-IsUpTo paths (done ++ (path ∷ [])) next final
                (add_file-IsUpTo path done info next h (omega arith) goes) (omega arith) rest)
      ]

  -- For fewer than 2 ^ 31 paths, the header of the files names every directory once, the index of each
  -- path is the one of its directory, and every list has an item for each path.
  pub get_files_info-AreLocated :
      (paths : List Bytes) (info : FilesInfo)
      → length paths < 2 ^ 31
      → get_files_info fs paths ≡ some info
      → AreLocated fs info.dir_names paths info.dir_indexes
        × IsDistinct info.dir_names
        × HasLength (length paths) info
  unfolding get_files_info
  get_files_info-AreLocated paths info short run =
      let start : IsUpTo [] no_files = record {
        located = tt;
        distinct = tt;
        lengths = omega arith;
        few = omega arith;
      } in
      let all = add_files-IsUpTo paths [] no_files info start (omega arith) run in
      (all.located, all.distinct, all.lengths)
