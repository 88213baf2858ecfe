-- ===== src/Rpm/Words.antt =====
-- The integers of a package header, as `binary.Write` puts them out in network byte order.
use tt.Prelude.{
  ℕ, ◌+◌, ◌-◌, ◌*◌, ◌/◌, ◌%◌, ◌^◌, ◌<◌, ◌≡◌, ap, List, [], ◌∷◌, ◌++◌, Option, none, some, ℤ, pos,
  negsuc, ltb, if◌then◌else◌, arith,
}

-- The bit pattern of an integer that Go converts to `w` bits, with 2 ^ w for `m`.
unfoldable pub bits : ℕ → ℤ → ℕ
bits m (pos n) = n % m
bits m (negsuc n) = m - 1 - n % m

-- The integer of a bit pattern.
unfoldable pub signed : ℕ → ℕ → ℤ
signed m n = if ltb n (m / 2) then pos n else negsuc (m - 1 - n)

-- What fits into a signed integer with 2 ^ w values.
abbrev pub Fits : ℕ → ℤ → Type 0
Fits m (pos n) = n < m / 2
Fits m (negsuc n) = n < m / 2

unfoldable pub word8 : ℕ → List ℕ
word8 n = (n % 256) ∷ []

unfoldable pub word16 : ℕ → List ℕ
word16 n = (n / 2 ^ 8 % 256) ∷ (n % 256) ∷ []

unfoldable pub word32 : ℕ → List ℕ
word32 n = (n / 2 ^ 24 % 256) ∷ (n / 2 ^ 16 % 256) ∷ (n / 2 ^ 8 % 256) ∷ (n % 256) ∷ []

unfoldable pub word64 : ℕ → List ℕ
unfolding word32
word64 n = word32 (n / 2 ^ 32) ++ word32 (n % 2 ^ 32)

unfoldable pub read8 : List ℕ → Option (ℕ × List ℕ)
read8 [] = none
read8 (a ∷ s) = some (a, s)

unfoldable pub read16 : List ℕ → Option (ℕ × List ℕ)
read16 (a ∷ b ∷ s) = some (a * 2 ^ 8 + b, s)
read16 _ = none

unfoldable pub read32 : List ℕ → Option (ℕ × List ℕ)
read32 (a ∷ b ∷ c ∷ d ∷ s) = some (a * 2 ^ 24 + b * 2 ^ 16 + c * 2 ^ 8 + d, s)
read32 _ = none

unfoldable pub read64 : List ℕ → Option (ℕ × List ℕ)
read64 (a ∷ b ∷ c ∷ d ∷ e ∷ f ∷ g ∷ h ∷ s) = some (
  (a * 2 ^ 24 + b * 2 ^ 16 + c * 2 ^ 8 + d) * 2 ^ 32 + (e * 2 ^ 24 + f * 2 ^ 16 + g * 2 ^ 8 + h),
  s,
)
read64 _ = none

quarters :
    (n : ℕ)
    → n < 2 ^ 32
    → n / 2 ^ 24 % 256 * 2 ^ 24 + n / 2 ^ 16 % 256 * 2 ^ 16 + n / 2 ^ 8 % 256 * 2 ^ 8 + n % 256 ≡ n
quarters n h = omega arith

pub read8-word8 : (n : ℕ) (s : List ℕ) → n < 2 ^ 8 → read8 (word8 n ++ s) ≡ some (n, s)
unfolding read8 word8
read8-word8 n s h = ap (λ (k : ℕ). some (k, s)) (omega arith)

pub read16-word16 : (n : ℕ) (s : List ℕ) → n < 2 ^ 16 → read16 (word16 n ++ s) ≡ some (n, s)
unfolding read16 word16
read16-word16 n s h = ap (λ (k : ℕ). some (k, s)) (omega arith)

pub read32-word32 : (n : ℕ) (s : List ℕ) → n < 2 ^ 32 → read32 (word32 n ++ s) ≡ some (n, s)
unfolding read32 word32
read32-word32 n s h = ap (λ (k : ℕ). some (k, s)) (quarters n h)

pub read64-word64 : (n : ℕ) (s : List ℕ) → n < 2 ^ 64 → read64 (word64 n ++ s) ≡ some (n, s)
unfolding read64 word64 word32
read64-word64 n s h =
    let high = quarters (n / 2 ^ 32) (omega arith) in
    let low = quarters (n % 2 ^ 32) (omega arith) in
    ap (λ (k : ℕ). some (k, s)) (omega (arith, ap (λ (t : ℕ). t * 2 ^ 32) high, low))

pub bits-lt : (m : ℕ) (z : ℤ) → 0 < m → bits m z < m
unfolding bits
bits-lt m (pos n) h = grind arith
bits-lt m (negsuc n) h = omega arith

small_mod : (n m : ℕ) → n < m → n % m ≡ n
small_mod n m h = grind arith

pub signed-bits :
    (m h : ℕ) (z : ℤ) → 0 < h → m ≡ h + h → m / 2 ≡ h → Fits m z → signed m (bits m z) ≡ z
unfolding bits signed
signed-bits m h (pos n) p e half f = rw (small_mod n m (omega arith)) (ground arith)
signed-bits m h (negsuc n) p e half f = rw (small_mod n m (omega arith)) (ground arith)
