-- ===== src/Rpm/Reader.antt =====
-- The format of a packed set of tags, as the comment of cli/pack/rpm_tagset.go describes it, written
-- as a reader: header, index entries that point into the data, and the values at aligned offsets.
use tt.Rpm.Words.{signed, read8, read16, read32, read64}
use tt.Prelude.{
  ℕ, zero, suc, ◌*◌, ◌%◌, ◌^◌, ◌&&◌, Option, none, some, List, [], ◌∷◌, ℤ, length, nat_eq,
  if◌then◌else◌, drop,
}
use tt.Rpm.{
  ValueType, null, char, int8, int16, int32, int64, string, bin, string_array, Tag, TagValue, nil,
  bytes, text, texts, int8s, int16s, int32s, int64s, boundaries,
}

abbrev pub Reading {ℓ} : Type ℓ → Type ℓ
Reading A = Option (A × List ℕ)

infixl 5 ◌>>=◌
abbrev pub ◌>>=◌ {ℓ κ} : {A : Type ℓ} {B : Type κ} → Option A → (A → Option B) → Option B
none >>= f = none
some a >>= f = f a

-- `n` values, each read by `read`.
unfoldable pub read_each {ℓ} : {A : Type ℓ} → (List ℕ → Reading A) → ℕ → List ℕ → Reading (List A)
read_each read zero s = some ([], s)
read_each read (suc n) s = do
  (x, s') ← read s
  (xs, rest) ← read_each read n s'
  some (x ∷ xs, rest)

unfoldable pub read_text : List ℕ → Reading (List ℕ)
read_text [] = none
read_text (b ∷ s) =
    let rest = read_text s in
    if nat_eq b 0 then some ([], s) else do (t, s') ← rest; some (b ∷ t, s')

-- A signed integer with 2 ^ w values.
unfoldable pub read_signed : (List ℕ → Reading ℕ) → ℕ → List ℕ → Reading ℤ
read_signed read m s = do (n, rest) ← read s; some (signed m n, rest)

-- The value of a type, of so many items, at the start of a list.
unfoldable pub read_value : ValueType → ℕ → List ℕ → Option TagValue
read_value null n s = if nat_eq n 1 then some nil else none
read_value char n s = do (x, _) ← read_each read8 n s; some (bytes x)
read_value bin n s = do (x, _) ← read_each read8 n s; some (bytes x)
read_value string n s = if nat_eq n 1 then (do (x, _) ← read_text s; some (text x)) else none
read_value string_array n s = do (x, _) ← read_each read_text n s; some (texts x)
read_value int8 n s = do (x, _) ← read_each (read_signed read8 (2 ^ 8)) n s; some (int8s x)
read_value int16 n s = do (x, _) ← read_each (read_signed read16 (2 ^ 16)) n s; some (int16s x)
read_value int32 n s = do (x, _) ← read_each (read_signed read32 (2 ^ 32)) n s; some (int32s x)
read_value int64 n s = do (x, _) ← read_each (read_signed read64 (2 ^ 64)) n s; some (int64s x)
read_value _ n s = none

unfoldable pub type_of : ℕ → Option ValueType
type_of n =
    if nat_eq n 0
    then some null
    else if nat_eq n 1
    then some char
    else if nat_eq n 2
    then some int8
    else if nat_eq n 3
    then some int16
    else if nat_eq n 4
    then some int32
    else if nat_eq n 5
    then some int64
    else if nat_eq n 6
    then some string
    else if nat_eq n 7
    then some bin
    else if nat_eq n 8
    then some string_array
    else none

-- The value at an offset of the data, which has to lie on the boundary of its type.
unfoldable pub read_at : ValueType → ℕ → ℕ → List ℕ → Option TagValue
read_at type offset count store = do
  n ← boundaries type
  if nat_eq (offset % n) 0 then read_value type count (drop offset store) else none

-- One entry of the index, with the value that it points to.
unfoldable pub read_tag : List ℕ → List ℕ → Reading Tag
read_tag store s = do
  (id, s1) ← read32 s
  (code, s2) ← read32 s1
  (offset, s3) ← read32 s2
  (count, rest) ← read32 s3
  type ← type_of code
  value ← read_at type offset count store
  some (record { id = signed (2 ^ 32) id; type = type; value = value }, rest)

unfoldable pub read_magic : List ℕ → Option (List ℕ)
read_magic (a ∷ b ∷ c ∷ version ∷ s) =
    if nat_eq a 0x8e && (nat_eq b 0xad && (nat_eq c 0xe8 && nat_eq version 1)) then some s else none
read_magic _ = none

-- The whole set: as many entries as the header says, and as many bytes of data behind them.
unfoldable pub read_tag_set : List ℕ → Option (List Tag)
read_tag_set s = do
  s0 ← read_magic s
  (reserved, s1) ← read32 s0
  (tags_num, s2) ← read32 s1
  (data_len, index) ← read32 s2
  (tags, store) ← read_each (read_tag (drop (tags_num * 16) index)) tags_num index
  if nat_eq (length store) data_len then some tags else none
