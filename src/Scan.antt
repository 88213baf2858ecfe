-- ===== src/Scan.antt =====
-- What the code uses of strconv and strings: `ParseInt(s, 10, 64)`, `ParseUint(s, 10, 64)`, and
-- `ToLower` as far as it can make a text of ASCII letters: outside ASCII, two characters have such
-- a lower case.
use Prim.Native.Char.{code}
use tt.Prelude.{
  ℕ, ◌+◌, ◌-◌, ◌*◌, ◌^◌, String, Bool, true, false, ◌&&◌, Option, none, some, ltb, leb,
  if◌then◌else◌, ℤ, pos, negsuc, ◌≡◌, ◌<◌, inl, inr, Option-cases, arith, List, [], ◌∷◌, nat_eq,
}

abbrev pub codes : String → List ℕ
codes String.[] = []
codes (String.◌∷◌ c s) = code c ∷ codes s

abbrev pub is_digit : ℕ → Bool
is_digit c = leb b'0' c && leb c b'9'

-- The value of a run of digits that ends the text.
digits : ℕ → List ℕ → Option ℕ
digits n [] = some n
digits n (c ∷ rest) =
    let more = digits (n * 10 + (c - 48)) rest in if is_digit c then more else none

magnitude : List ℕ → Option ℕ
unfolding digits
magnitude [] = none
magnitude (c ∷ rest) = digits 0 (c ∷ rest)

to_positive : Option ℕ → Option ℤ
to_positive (some n) = if ltb n (2 ^ 63) then some (pos n) else none
to_positive none = none

to_negative : Option ℕ → Option ℤ
to_negative (some n) =
    if nat_eq n 0 then some (pos 0) else if leb n (2 ^ 63) then some (negsuc (n - 1)) else none
to_negative none = none

parse_signed : List ℕ → Option ℤ
unfolding magnitude to_positive to_negative
parse_signed [] = none
parse_signed (c ∷ rest) =
    if nat_eq c b'-'
    then to_negative (magnitude rest)
    else if nat_eq c b'+'
    then to_positive (magnitude rest)
    else to_positive (magnitude (c ∷ rest))

unfoldable pub parse_int : String → Option ℤ
unfolding parse_signed
parse_int s = parse_signed (codes s)

-- The number, if the bits suffice for it.
in_range : Option ℕ → Option ℕ
in_range (some n) = if ltb n (2 ^ 64) then some n else none
in_range none = none

unfoldable pub parse_uint : String → Option ℕ
unfolding magnitude in_range
parse_uint s = in_range (magnitude (codes s))

pub parse_uint-lt : (s : String) (n : ℕ) → parse_uint s ≡ some n → n < 2 ^ 64
unfolding parse_uint in_range
parse_uint-lt s n h = elim (Option-cases (magnitude (codes s))) [
  | inl e ↦ absurd (ground (arith, h, e))
  | inr (m, e) ↦ ground (arith, h, e)
]

-- U+0130 becomes i, and U+212A becomes k.
abbrev lower : ℕ → ℕ
lower c =
    if leb b'A' c && leb c b'Z'
    then c + 32
    else if nat_eq c 0x130
    then b'i'
    else if nat_eq c 0x212a
    then b'k'
    else c

codes_eq : List ℕ → List ℕ → Bool
codes_eq [] [] = true
codes_eq (a ∷ l) (b ∷ m) = nat_eq (lower a) b && codes_eq l m
codes_eq _ _ = false

-- `strings.ToLower(s) == t`, for a text t of ASCII letters in lower case.
unfoldable pub lower_eq : String → String → Bool
unfolding codes_eq
lower_eq s t = codes_eq (codes s) (codes t)
