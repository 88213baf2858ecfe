-- ===== src/Rpm/Loop.antt =====
-- The loop of `packTagSet` over the tags, and what the reader makes of what it adds.
use mathlib.Core.List.{append_assoc, append-nil}
use tt.Rpm.Words.{bits, Fits, word32, read32, read32-word32, bits-lt, signed-bits}
use tt.Prelude.{
  ℕ, ◌+◌, ◌*◌, ◌%◌, ◌^◌, ◌<◌, ◌≡◌, refl, subst, some, List, [], ◌∷◌, ◌++◌, ℤ, pos, length,
  length-append, drop-append, All, arith, nat_eq_iff, sym, ◌∙◌,
}
use tt.Rpm.{
  ValueType, type_code, Tag, TagValue, ok, pack_int32, pack_tag, pack_tags, aligned,
  get_packed_tag_index,
}
use tt.Rpm.Reader.{read_each, type_of, read_at, read_tag}
use tt.Rpm.Values.{IsStorable, IsPacked, value-IsPacked}
use tt.Rpm.Align.{aligned_lem}

-- A tag that a package can carry.
abbrev pub IsTag : Tag → Type 0
IsTag t = Fits (2 ^ 32) t.id × IsStorable t.type t.value

-- The entry of an index, in front of the entries that follow.
abbrev entry : ℤ → ValueType → ℕ → ℕ → List ℕ
entry id type offset count = get_packed_tag_index id type (pos offset) count

small_bits : (n : ℕ) → n < 2 ^ 32 → bits (2 ^ 32) (pos n) ≡ n
unfolding bits
small_bits n h = omega arith

pub read32-pos : (n : ℕ) (s : List ℕ) → n < 2 ^ 32 → read32 (pack_int32 (pos n) ++ s) ≡ some (n, s)
unfolding pack_int32
read32-pos n s h = rw (small_bits n h) (read32-word32 n s h)

read32-pack_int32 : (z : ℤ) (s : List ℕ) → read32 (pack_int32 z ++ s) ≡ some (bits (2 ^ 32) z, s)
unfolding pack_int32
read32-pack_int32 z s = read32-word32 (bits (2 ^ 32) z) s (bits-lt (2 ^ 32) z (omega arith))

-- The four words of an entry are read back.
entry_append :
    (id : ℤ) (type : ValueType) (offset count : ℕ) (s : List ℕ)
    → entry id type offset count ++ s
      ≡ pack_int32 id
        ++ (pack_int32 (pos (type_code type))
            ++ (pack_int32 (pos offset) ++ (pack_int32 (pos count) ++ s)))
unfolding get_packed_tag_index
entry_append id type offset count s = simp append_assoc

pub read_tag-entry :
    (id : ℤ) (type : ValueType) (v : TagValue) (offset count : ℕ) (store s : List ℕ)
    → Fits (2 ^ 32) id
    → type_code type < 256
    → offset < 2 ^ 32
    → count < 2 ^ 32
    → type_of (type_code type) ≡ some type
    → read_at type offset count store ≡ some v
    → read_tag store (entry id type offset count ++ s)
      ≡ some (record { id = id; type = type; value = v }, s)
unfolding read_tag
read_tag-entry id type v offset count store s fits small low few coded found =
    rw
      (
        entry_append id type offset count s,
        read32-pack_int32 id (
            pack_int32 (pos (type_code type))
            ++ (pack_int32 (pos offset) ++ (pack_int32 (pos count) ++ s))),
        read32-pos (type_code type) (pack_int32 (pos offset) ++ (pack_int32 (pos count) ++ s))
            (omega arith),
        read32-pos offset (pack_int32 (pos count) ++ s) low,
        read32-pos count s few,
        coded,
        found,
        signed-bits (2 ^ 32) (2 ^ 31) id (omega arith) refl refl fits,
      )
      refl

pub length-entry :
    (id : ℤ) (type : ValueType) (offset : ℤ) (count : ℕ)
    → length (get_packed_tag_index id type offset count) ≡ 16
unfolding get_packed_tag_index pack_int32 word32
length-entry id type offset count = refl

-- What the loop over the tags adds to the data and to the index, and that it is read back.
pub record IsLoopDone (ts : List Tag) (data_in index_in : List ℕ) : Type 0 where
  pub added : List ℕ
  pub entries : List ℕ
  pub packs : pack_tags ts data_in index_in ≡ ok (data_in ++ added, index_in ++ entries)
  pub long : length entries ≡ length ts * 16
  pub reads :
      (more s : List ℕ)
      → length (data_in ++ added) + 1 < 2 ^ 32
      → read_each (read_tag ((data_in ++ added) ++ more)) (length ts) (entries ++ s) ≡ some (ts, s)

-- The value behind `start` is found at its offset.
read_at-start :
    (type : ValueType) (v : TagValue) (p : IsPacked type v) (start rest : List ℕ)
    → length start % p.boundary ≡ 0
    → read_at type (length start) p.packed.count (start ++ (p.packed.content ++ rest)) ≡ some v
unfolding read_at
read_at-start type v p start rest even =
    rw
      (
        p.bounded,
        (nat_eq_iff (length start % p.boundary) 0).1 even,
        drop-append start (p.packed.content ++ rest),
      )
      (p.reads rest)

module _ (t : Tag) (ts : List Tag) (d i : List ℕ) (p : IsPacked t.type t.value) where
  abbrev start : List ℕ
  start = aligned p.boundary d

  abbrev own : List ℕ
  own = entry t.id t.type (length start) p.packed.count

  step_packs : pack_tags (t ∷ ts) d i ≡ pack_tags ts (start ++ p.packed.content) (i ++ own)
  unfolding pack_tags
  step_packs =
      let packs : pack_tag t ≡ ok p.packed = unfold pack_tag in p.packs in
      rw (pack_tags, packs, p.bounded) refl

  module _ (rec : IsLoopDone ts (start ++ p.packed.content) (i ++ own)) where
    abbrev whole : List ℕ
    whole = (start ++ p.packed.content) ++ rec.added

    step_read :
        (more s : List ℕ)
        → Fits (2 ^ 32) t.id
        → length start % p.boundary ≡ 0
        → length whole + 1 < 2 ^ 32
        → read_each (read_tag (whole ++ more)) (length (t ∷ ts)) ((own ++ rec.entries) ++ s)
          ≡ some (t ∷ ts, s)
    unfolding read_each
    step_read more s fits even short =
        let split : whole ++ more ≡ start ++ (p.packed.content ++ (rec.added ++ more)) =
          simp append_assoc in
        let first_len : length (start ++ p.packed.content)
            ≡ length start + length p.packed.content =
          length-append start p.packed.content in
        let whole_len = length-append (start ++ p.packed.content) rec.added in
        let found : read_at t.type (length start) p.packed.count (whole ++ more) ≡ some t.value =
          rw split (read_at-start t.type t.value p start (rec.added ++ more) even) in
        let first : read_tag (whole ++ more) (own ++ (rec.entries ++ s))
            ≡ some (t, rec.entries ++ s) =
          read_tag-entry t.id t.type t.value (length start) p.packed.count (whole ++ more)
            (rec.entries ++ s) fits p.small (omega (arith, first_len, whole_len))
            (omega (arith, first_len, whole_len, p.counts)) p.coded found in
        rw (append_assoc own rec.entries s, first, rec.reads more s short) refl

pub loop_done : (ts : List Tag) (d i : List ℕ) → All IsTag ts → IsLoopDone ts d i
loop_done [] d i h = record {
  added = [];
  entries = [];
  packs = unfold pack_tags in rw (append-nil d, append-nil i) refl;
  long = refl;
  reads = λ more s b. unfold read_each in refl;
}
loop_done (t ∷ ts) d i h =
    let p = value-IsPacked t.type t.value h.0.1 in
    let (pad, padded, even) = aligned_lem p.boundary d p.positive in
    let rec = loop_done ts (start t ts d i p ++ p.packed.content) (i ++ own t ts d i p) h.1 in
    let same : d ++ (pad ++ (p.packed.content ++ rec.added)) ≡ whole t ts d i p rec =
      rw padded (simp append_assoc) in
    record {
      added = pad ++ (p.packed.content ++ rec.added);
      entries = own t ts d i p ++ rec.entries;
      packs =
          step_packs t ts d i p
          ∙ rec.packs
          ∙ rw (same, append_assoc i (own t ts d i p) rec.entries) refl;
      long = omega (
        arith,
        length-append (own t ts d i p) rec.entries,
        length-entry t.id t.type (pos (length (start t ts d i p))) p.packed.count,
        rec.long,
      );
      reads = λ more s short.
          subst
            (λ (w : List ℕ).
              read_each (read_tag (w ++ more)) (length (t ∷ ts))
                ((own t ts d i p ++ rec.entries) ++ s)
              ≡ some (t ∷ ts, s))
            (sym same)
            (step_read t ts d i p rec more s h.0.0 even
              (subst (λ (w : List ℕ). length w + 1 < 2 ^ 32) same short));
    }
