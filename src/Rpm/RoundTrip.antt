-- ===== src/Rpm/RoundTrip.antt =====
-- What `packTagSet` packs is read back by the format's description.
use mathlib.Core.List.{append_assoc}
use tt.Rpm.Words.{Fits, word32, read8}
use tt.Prelude.{
  ℕ, suc, ◌+◌, ◌*◌, ◌%◌, ◌^◌, ◌<◌, ◌≡◌, refl, subst, some, List, [], ◌∷◌, ◌++◌, ℤ, pos, length,
  length-append, drop, drop-append, All, arith, nat_eq_iff,
}
use tt.Rpm.{
  bin, type_code, Tag, bytes, ok, pack_int32, pack_tag_set, boundaries, get_packed_tag_index,
  get_tag_set_header, assemble, region_data,
}
use tt.Rpm.Reader.{read_each, read_value, type_of, read_at, read_tag, read_magic, read_tag_set}
use tt.Rpm.Loop.{IsTag, IsLoopDone, loop_done, read32-pos, read_tag-entry, length-entry}

abbrev pub region_tag : ℤ → ℕ → Tag
region_tag region n = record { id = region; type = bin; value = bytes (region_data region n) }

module _ (tags : List Tag) (region : ℤ) (loop : IsLoopDone tags [] []) where
  abbrev n : ℕ
  n = suc (length tags)

  abbrev region_entry : List ℕ
  region_entry = get_packed_tag_index region bin (pos (length loop.added)) 16

  abbrev store : List ℕ
  store = loop.added ++ region_data region n

  abbrev index : List ℕ
  index = (region_entry ++ loop.entries) ++ store

  packed_as : pack_tag_set tags region ≡ ok (assemble region n (loop.added, loop.entries))
  unfolding pack_tag_set
  packed_as =
      let count : length tags + 1 ≡ n = omega arith in rw (pack_tag_set, loop.packs, count) refl

  region_found : read_at bin (length loop.added) 16 store ≡ some (bytes (region_data region n))
  unfolding read_at boundaries read_value read_each read8 region_data get_packed_tag_index
      pack_int32 word32
  region_found =
      rw
        (
          (nat_eq_iff (length loop.added % 1) 0).1 (omega arith),
          drop-append loop.added (region_data region n),
        )
        refl

  region_read :
      Fits (2 ^ 32) region
      → length loop.added + 1 < 2 ^ 32
      → read_tag store (region_entry ++ (loop.entries ++ store))
        ≡ some (region_tag region n, loop.entries ++ store)
  region_read f short =
      read_tag-entry region bin (bytes (region_data region n)) (length loop.added) 16 store
        (loop.entries ++ store) f (unfold type_code in omega arith) (omega arith) (omega arith)
        (unfold type_code type_of in refl) region_found

  all_read :
      Fits (2 ^ 32) region
      → length loop.added + 1 < 2 ^ 32
      → read_each (read_tag store) n index ≡ some (region_tag region n ∷ tags, store)
  unfolding read_each
  all_read f short =
      let more = loop.reads (region_data region n) store short in
      rw (append_assoc region_entry loop.entries store, region_read f short, more) refl

  store_lem : drop (n * 16) index ≡ store
  store_lem =
      let long : length (region_entry ++ loop.entries) ≡ n * 16 = omega (
        arith,
        length-append region_entry loop.entries,
        length-entry region bin (pos (length loop.added)) 16,
        loop.long,
      ) in
      subst (λ (k : ℕ). drop k index ≡ store) long
        (drop-append (region_entry ++ loop.entries) store)

  header_read :
      length store < 2 ^ 32
      → n < 2 ^ 32
      → read_each (read_tag store) n index ≡ some (region_tag region n ∷ tags, store)
      → read_tag_set (get_tag_set_header n (length store) ++ index)
        ≡ some (region_tag region n ∷ tags)
  unfolding read_tag_set read_magic get_tag_set_header
  header_read short few all =
      rw
        (
          append_assoc (pack_int32 (pos 0)) (pack_int32 (pos n) ++ pack_int32 (pos (length store)))
              index,
          read32-pos 0 ((pack_int32 (pos n) ++ pack_int32 (pos (length store))) ++ index)
              (omega arith),
          append_assoc (pack_int32 (pos n)) (pack_int32 (pos (length store))) index,
          read32-pos n (pack_int32 (pos (length store)) ++ index) few,
          read32-pos (length store) index short,
          store_lem,
          all,
          (nat_eq_iff (length store) (length store)).1 refl,
        )
        refl

  length-store : length store ≡ length loop.added + 16
  unfolding region_data get_packed_tag_index pack_int32 word32
  length-store = length-append loop.added (region_data region n)

  size : length (assemble region n (loop.added, loop.entries)) ≡ n * 16 + length store + 16
  unfolding assemble get_tag_set_header pack_int32 word32
  size = omega (
    arith,
    length-append (region_entry ++ loop.entries) store,
    length-append region_entry loop.entries,
    length-entry region bin (pos (length loop.added)) 16,
    loop.long,
  )

  whole_read :
      Fits (2 ^ 32) region
      → length (assemble region n (loop.added, loop.entries)) < 2 ^ 32
      → read_tag_set (assemble region n (loop.added, loop.entries))
        ≡ some (region_tag region n ∷ tags)
  whole_read f short =
      unfold assemble in
      header_read (omega (arith, size, short)) (omega (arith, size, short))
        (all_read f (omega (arith, size, short, length-store)))

-- Where each value has the type of its tag, `packTagSet` returns no error, and the description of the
-- format reads from what it packed, if that is shorter than 2 ^ 32, the region tag and then the tags,
-- each with its data on the boundary of its type.
pub pack_tag_set-read :
    (tags : List Tag) (region : ℤ)
    → All IsTag tags
    → Fits (2 ^ 32) region
    → ((out : List ℕ) → pack_tag_set tags region ≡ ok out → length out < 2 ^ 32)
    → (out : List ℕ) × (pack_tag_set tags region ≡ ok out)
      × (read_tag_set out ≡ some (region_tag region (suc (length tags)) ∷ tags))
pack_tag_set-read tags region h f short =
    let loop = loop_done tags [] [] h in
    let out = assemble region (suc (length tags)) (loop.added, loop.entries) in
    let packs = packed_as tags region loop in
    (out, packs, whole_read tags region loop f (short out packs))
