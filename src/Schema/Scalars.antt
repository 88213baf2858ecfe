-- ===== src/Schema/Scalars.antt =====
-- What the validators of scalars and of allowed values let pass.
use tt.Prelude.{
  ℕ, String, ◌≡◌, ap, Bool, true, false, List, [], ◌∷◌, arith, nat_eq, ℤ, pos, inl, inr,
  Option-cases, Bool-cases,
}
use tt.Config.Data.{any_width, w64, string, int, uint, float, bool, Value, nil, scalar, is_nil}
use tt.Schema.{
  Go, Checked, valid, invalid, panic, int_of_uint, validate_any, validate_string, validate_boolean,
  validate_integer, validate_number, is_allowed, check_allowed,
}
use tt.Scan.{lower_eq, parse_int}
use tt.Schema.Shape.{Allows}

is_allowed-Allows :
    (go : Go) (v : Value) (l : List Value) → is_allowed go v l ≡ true → Allows go v l
unfolding is_allowed
is_allowed-Allows go v [] h = cc
is_allowed-Allows go v (a ∷ rest) h = elim (Bool-cases (go.equal_converted v a)) [
  | inl same ↦ inl same
  | inr other ↦ inr (is_allowed-Allows go v rest (ground (arith, h, other)))
]

pub any-HasShape : (v y : Value) → validate_any v ≡ valid y → is_nil y ≡ false
unfolding validate_any
any-HasShape nil y h = ground (arith, h)
any-HasShape _ y h = ground (arith, h)

pub string-HasShape :
    (go : Go) (v y : Value)
    → validate_string go v ≡ valid y
    → (s : String) × (y ≡ scalar (string s))
unfolding validate_string
string-HasShape go (scalar (string s)) y h = (s, ground (arith, h))
string-HasShape go (scalar s) y h = (go.sprint (scalar s), ground (arith, h))
string-HasShape go _ y h = absurd (ground (arith, h))

pub boolean-HasShape :
    (v y : Value) → validate_boolean v ≡ valid y → (b : Bool) × (y ≡ scalar (bool b))
unfolding validate_boolean
boolean-HasShape (scalar (string s)) y h = elim (Bool-cases (lower_eq s "true")) [
  | inl e ↦ (true, ground (arith, h, e))
  | inr e ↦ (false, ground (arith, h, e))
]
boolean-HasShape (scalar (bool b)) y h = (b, ground (arith, h))
boolean-HasShape (scalar (int any_width (pos n))) y h = elim (Bool-cases (nat_eq n 1)) [
  | inl e ↦ (true, ground (arith, h, e))
  | inr e ↦ (false, ground (arith, h, e))
]
boolean-HasShape _ y h = absurd (ground (arith, h))

pub integer-HasShape :
    (v y : Value) → validate_integer v ≡ valid y → (n : ℤ) × (y ≡ scalar (int any_width n))
unfolding validate_integer
integer-HasShape (scalar (string s)) y h = elim (Option-cases (parse_int s)) [
  | inl e ↦ absurd (ground (arith, h, e))
  | inr (n, e) ↦ (n, ground (arith, h, e))
]
integer-HasShape (scalar (int w n)) y h = (n, ground (arith, h))
integer-HasShape (scalar (uint w n)) y h = (int_of_uint n, ground (arith, h))
integer-HasShape _ y h = absurd (ground (arith, h))

pub number-HasShape :
    (go : Go) (v y : Value) → validate_number go v ≡ valid y → (x : ℕ) × (y ≡ scalar (float w64 x))
unfolding validate_number
number-HasShape go v y h = ground (arith, h)

pub check_allowed-HasShape :
    (go : Go) (P : Value → Type 0) (allowed : List Value) (v y : Value) (r : Checked)
    → ((w : Value) → r ≡ valid w → P w)
    → check_allowed go allowed v r ≡ valid y
    → P y × Allows go y allowed
unfolding check_allowed
check_allowed-HasShape go P allowed v y (valid w) p h =
    let same : w ≡ y = ground (arith, h) in
    (p y (ap valid same), is_allowed-Allows go y allowed (ground (arith, h)))
check_allowed-HasShape go P allowed v y (invalid es) p h = absurd (ground (arith, h))
check_allowed-HasShape go P allowed v y panic p h = absurd (ground (arith, h))
