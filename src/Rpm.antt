-- ===== src/Rpm.antt =====
-- cli/pack/rpm_tagset.go, with the constants of cli/pack/rpm_const.go and the buffers of
-- cli/pack/rpm_pack.go: how a set of tags is packed. A buffer or a string is the list of its bytes.
pub mod Words
pub mod Reader
pub mod Values
pub mod Align
pub mod Loop
pub mod RoundTrip
pub mod Header
pub mod Lead
pub mod Files
pub mod Dirs
pub mod Located
use tt.Rpm.Words.{bits, word8, word16, word32, word64}
use tt.Prelude.{
  ℕ, zero, suc, ◌+◌, ◌-◌, ◌*◌, ◌/◌, ◌%◌, ◌^◌, Option, none, some, List, [], ◌∷◌, ◌++◌, ℤ, pos,
  negsuc, length, ltb, nat_eq, if◌then◌else◌,
}

-- The codes of `rpmValueType`.
pub data ValueType : Type 0 where
  null char int8 int16 int32 int64 string bin string_array i18n_string : ValueType
  -- A number that no constant names.
  unnamed : ℕ → ValueType

unfoldable pub type_code : ValueType → ℕ
type_code null = 0
type_code char = 1
type_code int8 = 2
type_code int16 = 3
type_code int32 = 4
type_code int64 = 5
type_code string = 6
type_code bin = 7
type_code string_array = 8
type_code i18n_string = 9
type_code (unnamed n) = n

-- What the `interface{}` of a tag holds; `other_value` is a value of any other Go type.
pub data TagValue : Type 0 where
  nil other_value : TagValue
  bytes text : List ℕ → TagValue
  texts : List (List ℕ) → TagValue
  int8s int16s int32s int64s : List ℤ → TagValue

pub record Tag : Type 0 where
  pub id : ℤ
  pub type : ValueType
  pub value : TagValue

pub record Packed : Type 0 where
  pub count : ℕ
  pub content : List ℕ

pub data PackError : Type 0 where
  null_not_nil not_bytes not_texts not_text not_int8s not_int16s not_int32s not_int64s : PackError
  unknown_type no_boundaries : PackError

pub data Result {ℓ} (A : Type ℓ) : Type ℓ where
  ok : A → Result A
  err : PackError → Result A

unfoldable pub pack_int32 : ℤ → List ℕ
pack_int32 z = word32 (bits (2 ^ 32) z)

-- Each value packed by `pack`, one after the other.
unfoldable pub pack_each {ℓ} : {A : Type ℓ} → (A → List ℕ) → List A → List ℕ
pack_each pack [] = []
pack_each pack (x ∷ xs) = pack x ++ pack_each pack xs

unfoldable pub terminated : List ℕ → List ℕ
terminated s = s ++ (0 ∷ [])

pack_bytes : TagValue → Result Packed
pack_bytes (bytes s) = ok record { count = length s; content = pack_each word8 s }
pack_bytes _ = err not_bytes

pack_texts : TagValue → Result Packed
pack_texts (texts ss) = ok record { count = length ss; content = pack_each terminated ss }
pack_texts _ = err not_texts

pack_text : TagValue → Result Packed
pack_text (text s) = ok record { count = 1; content = terminated s }
pack_text _ = err not_text

pack_null : TagValue → Result Packed
pack_null nil = ok record { count = 1; content = [] }
pack_null _ = err null_not_nil

pack_int8s : TagValue → Result Packed
pack_int8s (int8s zs) =
    ok record { count = length zs; content = pack_each (λ z. word8 (bits (2 ^ 8) z)) zs }
pack_int8s _ = err not_int8s

pack_int16s : TagValue → Result Packed
pack_int16s (int16s zs) =
    ok record { count = length zs; content = pack_each (λ z. word16 (bits (2 ^ 16) z)) zs }
pack_int16s _ = err not_int16s

pack_int32s : TagValue → Result Packed
pack_int32s (int32s zs) = ok record { count = length zs; content = pack_each pack_int32 zs }
pack_int32s _ = err not_int32s

pack_int64s : TagValue → Result Packed
pack_int64s (int64s zs) =
    ok record { count = length zs; content = pack_each (λ z. word64 (bits (2 ^ 64) z)) zs }
pack_int64s _ = err not_int64s

unfoldable pub pack_value : ValueType → TagValue → Result Packed
unfolding pack_null pack_bytes pack_texts pack_text pack_int8s pack_int16s pack_int32s pack_int64s
pack_value null v = pack_null v
pack_value char v = pack_bytes v
pack_value bin v = pack_bytes v
pack_value string_array v = pack_texts v
pack_value string v = pack_text v
pack_value int8 v = pack_int8s v
pack_value int16 v = pack_int16s v
pack_value int32 v = pack_int32s v
pack_value int64 v = pack_int64s v
pack_value i18n_string v = err unknown_type
pack_value (unnamed n) v = err unknown_type

unfoldable pub pack_tag : Tag → Result Packed
pack_tag t = pack_value t.type t.value

-- `boundariesByType`
unfoldable pub boundaries : ValueType → Option ℕ
boundaries int16 = some 2
boundaries int32 = some 4
boundaries int64 = some 8
boundaries i18n_string = none
boundaries (unnamed n) = none
boundaries _ = some 1

unfoldable pub zeros : ℕ → List ℕ
zeros zero = []
zeros (suc n) = 0 ∷ zeros n

unfoldable pub align_data : List ℕ → ℕ → List ℕ
align_data buffer n =
    if nat_eq (length buffer % n) 0
    then buffer
    else buffer ++ zeros ((length buffer / n + 1) * n - length buffer)

unfoldable pub get_packed_tag_index : ℤ → ValueType → ℤ → ℕ → List ℕ
get_packed_tag_index id type offset count =
    pack_int32 id
    ++ (pack_int32 (pos (type_code type)) ++ (pack_int32 offset ++ pack_int32 (pos count)))

unfoldable pub get_tag_set_header : ℕ → ℕ → List ℕ
get_tag_set_header tags_num data_len =
    0x8e
    ∷ 0xad
    ∷ 0xe8
    ∷ 0x01
    ∷ (pack_int32 (pos 0) ++ (pack_int32 (pos tags_num) ++ pack_int32 (pos data_len)))

-- The offset at which the next tag's data starts, with what stands before it.
unfoldable pub aligned : ℕ → List ℕ → List ℕ
aligned n buffer = if ltb 1 n then align_data buffer n else buffer

-- The loop over the tags: `tagsData` and `tagsIndex` grow.
unfoldable pub pack_tags : List Tag → List ℕ → List ℕ → Result (List ℕ × List ℕ)
pack_tags [] tags_data tags_index = ok (tags_data, tags_index)
pack_tags (t ∷ ts) tags_data tags_index = elim (pack_tag t) [
  | err e ↦ err e
  | ok packed ↦ elim (boundaries t.type) [
    | none ↦ err no_boundaries
    | some n ↦
        let start = aligned n tags_data in
        pack_tags ts (start ++ packed.content)
          (tags_index ++ get_packed_tag_index t.id t.type (pos (length start)) packed.count)
  ]
]

-- -n as an integer
unfoldable pub negated : ℕ → ℤ
negated zero = pos 0
negated (suc n) = negsuc n

unfoldable pub region_data : ℤ → ℕ → List ℕ
region_data region tags_num = get_packed_tag_index region bin (negated (tags_num * 16)) 16

unfoldable pub assemble : ℤ → ℕ → List ℕ × List ℕ → List ℕ
assemble region tags_num (tags_data, tags_index) =
    let res_index = get_packed_tag_index region bin (pos (length tags_data)) 16 ++ tags_index in
    let res_data = tags_data ++ region_data region tags_num in
    get_tag_set_header tags_num (length res_data) ++ (res_index ++ res_data)

unfoldable pub pack_tag_set : List Tag → ℤ → Result (List ℕ)
pack_tag_set tags region = elim (pack_tags tags [] []) [
  | err e ↦ err e
  | ok packed ↦ ok (assemble region (length tags + 1) packed)
]
