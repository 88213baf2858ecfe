-- ===== src/Regex.antt =====
-- The regular expressions of the code, as package regexp runs them: the leftmost of the matches, in
-- the order in which a backtracking search finds them, with the texts of the named groups.
use Prim.Native.Char.{code}
use tt.Prelude.{
  ℕ, String, Bool, true, false, Option, some, none, List, [], ◌∷◌, suc, not, ◌&&◌, ◌||◌, leb,
  nat_eq, ◌==◌, if◌then◌else◌,
}

pub data Regex : Type 0 where
  empty : Regex
  literal : String → Regex
  -- one character of a class, and greedy runs of characters of a class
  class many many1 : (ℕ → Bool) → Regex
  seq alt : Regex → Regex → Regex
  optional : Regex → Regex
  group : String → Regex → Regex

-- The texts of the groups that took part in the match.
abbrev pub Captures : Type 0
Captures = List (String × String)

-- The text of a group; empty for one that took no part.
unfoldable pub captured : String → Captures → String
captured name [] = ""
captured name ((j, text) ∷ rest) = if j == name then text else captured name rest

abbrev pub size : String → ℕ
size String.[] = 0
size (String.◌∷◌ c s) = suc (size s)

-- What is read of a text when `rest` is left of it.
taken : String → String → String
taken String.[] rest = String.[]
taken (String.◌∷◌ c s) rest =
    if leb (size rest) (size s) then String.◌∷◌ c (taken s rest) else String.[]

-- What is left of a text after a literal.
after_literal : String → String → Option String
after_literal String.[] s = some s
after_literal (String.◌∷◌ a t) String.[] = none
after_literal (String.◌∷◌ a t) (String.◌∷◌ c s) = elim (nat_eq (code a) (code c)) [
  | true ↦ after_literal t s
  | false ↦ none
]

abbrev or_else {ℓ} : {A : Type ℓ} → Option A → Option A → Option A
or_else (some a) other = some a
or_else none other = other

-- The longest run first.
match_run : (ℕ → Bool) → String → (String → Option Captures) → Option Captures
match_run p String.[] then_match = then_match String.[]
match_run p (String.◌∷◌ c s) then_match = elim (p (code c)) [
  | true ↦ or_else (match_run p s then_match) (then_match (String.◌∷◌ c s))
  | false ↦ then_match (String.◌∷◌ c s)
]

one_of : (ℕ → Bool) → String → Option String
one_of p String.[] = none
one_of p (String.◌∷◌ c s) = elim (p (code c)) [ true ↦ some s | false ↦ none ]

then_from : Option String → (String → Option Captures) → Option Captures
then_from (some s) then_match = then_match s
then_from none then_match = none

-- A match at the beginning of the text, and what is to match after it.
unfoldable pub match_prefix :
    Regex → String → Captures → (String → Captures → Option Captures) → Option Captures
unfolding taken after_literal match_run one_of then_from
match_prefix empty s cs then_match = then_match s cs
match_prefix (literal t) s cs then_match =
    then_from (after_literal t s) (λ rest. then_match rest cs)
match_prefix (class p) s cs then_match = then_from (one_of p s) (λ rest. then_match rest cs)
match_prefix (many p) s cs then_match = match_run p s (λ rest. then_match rest cs)
match_prefix (many1 p) s cs then_match =
    then_from (one_of p s) (λ next. match_run p next (λ rest. then_match rest cs))
match_prefix (seq a b) s cs then_match =
    match_prefix a s cs (λ rest ds. match_prefix b rest ds then_match)
match_prefix (alt a b) s cs then_match =
    or_else (match_prefix a s cs then_match) (match_prefix b s cs then_match)
match_prefix (optional a) s cs then_match =
    or_else (match_prefix a s cs then_match) (then_match s cs)
match_prefix (group name a) s cs then_match =
    match_prefix a s cs (λ rest ds. then_match rest ((name, taken s rest) ∷ ds))

at_end : String → Captures → Option Captures
at_end String.[] cs = some cs
at_end _ cs = none

-- `FindNamedMatches` for an expression between ^ and $; `none` for an empty map.
unfoldable pub find_named_matches : Regex → String → Option Captures
unfolding match_prefix at_end
find_named_matches r s = match_prefix r s [] at_end

abbrev pub any_char : ℕ → Bool
any_char c = not (nat_eq c 0xa)

abbrev pub digit : ℕ → Bool
digit c = leb b'0' c && leb c b'9'

abbrev pub hex_digit : ℕ → Bool
hex_digit c = digit c || leb b'a' c && leb c b'f'
