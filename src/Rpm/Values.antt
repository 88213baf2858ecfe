-- ===== src/Rpm/Values.antt =====
-- Each value of a packed tag is read back at its offset.
use mathlib.Core.List.{append_assoc}
use tt.Rpm.Words.{
  bits, Fits, word8, word16, word32, word64, read8, read16, read32, read64, read8-word8,
  read16-word16, read32-word32, read64-word64, bits-lt, signed-bits,
}
use tt.Prelude.{
  ℕ, ◌+◌, ◌/◌, ◌^◌, ◌≤◌, ◌<◌, ◌≡◌, ◌≢◌, refl, ap, some, List, [], ◌∷◌, ◌++◌, ℤ, length,
  length-append, All, arith, nat_eq, Bool-cases, inl, inr, nat_eq_iff, ◌∙◌,
}
use tt.Rpm.{
  ValueType, null, char, int8, int16, int32, int64, string, bin, string_array, type_code, TagValue,
  nil, bytes, text, texts, int8s, int16s, int32s, int64s, Packed, ok, pack_int32, pack_each,
  terminated, pack_value, boundaries,
}
use tt.Rpm.Reader.{◌>>=◌, Reading, read_each, read_text, read_signed, read_value, type_of}

-- A value of the Go type that its tag's type asks for: texts have no zero byte.
pub data IsStorable : ValueType → TagValue → Type 0 where
  of_null : IsStorable null nil
  of_char : (s : List ℕ) → All (λ b. b < 2 ^ 8) s → IsStorable char (bytes s)
  of_bin : (s : List ℕ) → All (λ b. b < 2 ^ 8) s → IsStorable bin (bytes s)
  of_string : (s : List ℕ) → All (λ b. b ≢ 0) s → IsStorable string (text s)
  of_string_array :
      (s : List (List ℕ)) → All (All (λ b. b ≢ 0)) s → IsStorable string_array (texts s)
  of_int8 : (zs : List ℤ) → All (Fits (2 ^ 8)) zs → IsStorable int8 (int8s zs)
  of_int16 : (zs : List ℤ) → All (Fits (2 ^ 16)) zs → IsStorable int16 (int16s zs)
  of_int32 : (zs : List ℤ) → All (Fits (2 ^ 32)) zs → IsStorable int32 (int32s zs)
  of_int64 : (zs : List ℤ) → All (Fits (2 ^ 64)) zs → IsStorable int64 (int64s zs)

module _ {A : Type 0} (P : A → Type 0) (pack : A → List ℕ) (read : List ℕ → Reading A) where
  -- `read` undoes `pack`, which takes at least a byte.
  abbrev pub Undoes : Type 0
  Undoes = (x : A) (s : List ℕ) → P x → read (pack x ++ s) ≡ some (x, s)

  module _ (undoes : Undoes) where
    pub read_each-pack_each :
        (xs : List A) (s : List ℕ)
        → All P xs
        → read_each read (length xs) (pack_each pack xs ++ s) ≡ some (xs, s)
    unfolding read_each pack_each
    read_each-pack_each [] s h = refl
    read_each-pack_each (x ∷ xs) s h =
        rw
          (
            append_assoc (pack x) (pack_each pack xs) s,
            undoes x (pack_each pack xs ++ s) h.0,
            read_each-pack_each xs s h.1,
          )
          refl

pub length-pack_each :
    {A : Type 0} (pack : A → List ℕ) (xs : List A)
    → ((x : A) → 1 ≤ length (pack x))
    → length xs ≤ length (pack_each pack xs)
unfolding pack_each
length-pack_each pack [] h = omega arith
length-pack_each pack (x ∷ xs) h =
    omega (arith, h x, length-append (pack x) (pack_each pack xs), length-pack_each pack xs h)

pub read_text-terminated :
    (t s : List ℕ) → All (λ b. b ≢ 0) t → read_text (terminated t ++ s) ≡ some (t, s)
unfolding read_text terminated
read_text-terminated [] s h = refl
read_text-terminated (b ∷ t) s h = elim (Bool-cases (nat_eq b 0)) [
  | inl zero_byte ↦ absurd (h.0 ((nat_eq_iff b 0).0 zero_byte))
  | inr other ↦ rw (other, read_text-terminated t s h.1) refl
]

signed_undoes :
    (word : ℕ → List ℕ) (read : List ℕ → Reading ℕ) (m k : ℕ)
    → ((n : ℕ) (s : List ℕ) → n < m → read (word n ++ s) ≡ some (n, s))
    → 0 < k
    → m ≡ k + k
    → m / 2 ≡ k
    → Undoes (Fits m) (λ z. word (bits m z)) (read_signed read m)
unfolding read_signed
signed_undoes word read m k law p e half z s f =
    rw (law (bits m z) s (bits-lt m z (omega arith)), signed-bits m k z p e half f) refl

pub read_signed32-pack_int32 : Undoes (Fits (2 ^ 32)) pack_int32 (read_signed read32 (2 ^ 32))
unfolding pack_int32
read_signed32-pack_int32 z s f =
    signed_undoes word32 read32 (2 ^ 32) (2 ^ 31) read32-word32 (omega arith) refl refl z s f

-- What packing a storable value gives, and that it is read back.
pub record IsPacked (type : ValueType) (v : TagValue) : Type 0 where
  pub packed : Packed
  pub packs : pack_value type v ≡ ok packed
  pub boundary : ℕ
  pub bounded : boundaries type ≡ some boundary
  pub positive : 0 < boundary
  pub counts : packed.count ≤ length packed.content + 1
  pub reads : (s : List ℕ) → read_value type packed.count (packed.content ++ s) ≡ some v
  pub coded : type_of (type_code type) ≡ some type
  pub small : type_code type < 256

-- A value that is a list: its items are packed by `pack` and read by `read`.
module _ {A : Type 0} (P : A → Type 0) (pack : A → List ℕ) (read : List ℕ → Reading A) where
  list-IsPacked :
      (type : ValueType) (wrap : List A → TagValue) (n : ℕ) (xs : List A)
      → Undoes P pack read
      → ((x : A) → 1 ≤ length (pack x))
      → All P xs
      → pack_value type (wrap xs) ≡ ok (record { count = length xs; content = pack_each pack xs })
      → ((k : ℕ) (s : List ℕ) → read_value type k s ≡ (read_each read k s >>= λ r. some (wrap r.0)))
      → (boundaries type ≡ some n) × (0 < n)
      → (type_of (type_code type) ≡ some type) × (type_code type < 256)
      → IsPacked type (wrap xs)
  list-IsPacked type wrap n xs undoes one h packs reads bounded coded = record {
    packed = record { count = length xs; content = pack_each pack xs };
    packs = packs;
    boundary = n;
    bounded = bounded.0;
    positive = bounded.1;
    counts = omega (arith, length-pack_each pack xs one);
    reads = λ s.
        reads (length xs) (pack_each pack xs ++ s)
        ∙ ap (λ (r : Reading (List A)). r >>= λ q. some (wrap q.0))
            (read_each-pack_each P pack read undoes xs s h);
    coded = coded.0;
    small = coded.1;
  }

length-terminated : (t : List ℕ) → 1 ≤ length (terminated t)
unfolding terminated
length-terminated t = omega (arith, length-append t (0 ∷ []))

pub value-IsPacked : (type : ValueType) (v : TagValue) → IsStorable type v → IsPacked type v
unfolding pack_value boundaries type_of type_code read_value word8 word16 word32 word64 pack_int32
value-IsPacked _ _ of_null = record {
  packed = record { count = 1; content = [] };
  packs = refl;
  boundary = 1;
  bounded = refl;
  positive = omega arith;
  counts = omega arith;
  reads = λ s. refl;
  coded = refl;
  small = omega arith;
}
value-IsPacked _ _ (of_string t h) = record {
  packed = record { count = 1; content = terminated t };
  packs = refl;
  boundary = 1;
  bounded = refl;
  positive = omega arith;
  counts = omega arith;
  reads = λ s. rw (read_text-terminated t s h) refl;
  coded = refl;
  small = omega arith;
}
value-IsPacked _ _ (of_char s h) =
    list-IsPacked (λ b. b < 2 ^ 8) word8 read8 char bytes 1 s read8-word8 (λ x. omega arith) h refl
      (λ k r. refl) (refl, omega arith) (refl, omega arith)
value-IsPacked _ _ (of_bin s h) =
    list-IsPacked (λ b. b < 2 ^ 8) word8 read8 bin bytes 1 s read8-word8 (λ x. omega arith) h refl
      (λ k r. refl) (refl, omega arith) (refl, omega arith)
value-IsPacked _ _ (of_string_array ts h) =
    list-IsPacked (All (λ b. b ≢ 0)) terminated read_text string_array texts 1 ts
      read_text-terminated length-terminated h refl (λ k r. refl) (refl, omega arith)
      (refl, omega arith)
value-IsPacked _ _ (of_int8 zs h) =
    list-IsPacked (Fits (2 ^ 8)) (λ z. word8 (bits (2 ^ 8) z)) (read_signed read8 (2 ^ 8)) int8
      int8s 1 zs (signed_undoes word8 read8 (2 ^ 8) (2 ^ 7) read8-word8 (omega arith) refl refl)
      (λ z. omega arith) h refl (λ k r. refl) (refl, omega arith) (refl, omega arith)
value-IsPacked _ _ (of_int16 zs h) =
    list-IsPacked (Fits (2 ^ 16)) (λ z. word16 (bits (2 ^ 16) z)) (read_signed read16 (2 ^ 16))
      int16 int16s 2 zs
      (signed_undoes word16 read16 (2 ^ 16) (2 ^ 15) read16-word16 (omega arith) refl refl)
      (λ z. omega arith) h refl (λ k r. refl) (refl, omega arith) (refl, omega arith)
value-IsPacked _ _ (of_int32 zs h) =
    list-IsPacked (Fits (2 ^ 32)) pack_int32 (read_signed read32 (2 ^ 32)) int32 int32s 4 zs
      read_signed32-pack_int32 (λ z. omega arith) h refl (λ k r. refl) (refl, omega arith)
      (refl, omega arith)
value-IsPacked _ _ (of_int64 zs h) =
    list-IsPacked (Fits (2 ^ 64)) (λ z. word64 (bits (2 ^ 64) z)) (read_signed read64 (2 ^ 64))
      int64 int64s 8 zs
      (signed_undoes word64 read64 (2 ^ 64) (2 ^ 63) read64-word64 (omega arith) refl refl)
      (λ z. omega arith) h refl (λ k r. refl) (refl, omega arith) (refl, omega arith)
