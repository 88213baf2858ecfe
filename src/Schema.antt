-- ===== src/Schema.antt =====
-- lib/cluster/validators.go: validators of configuration values.
pub mod Paths
pub mod Errors
pub mod Shape
pub mod Loops
pub mod Scalars
pub mod Accepted
pub mod Report
use Errors.{
  RawError, nil_value, unexpected, parse_failed, not_comparable, not_allowed, must_be_array,
  must_be_map, ValidateError, AnyError, raw, joined, wrap_validate_errors,
}
use tt.Scan.{parse_int, lower_eq}
use tt.Prelude.{
  ℕ, zero, suc, ◌-◌, ◌^◌, String, ◌≡◌, Bool, true, false, ◌&&◌, Option, none, some, List, [], ◌∷◌,
  ◌++◌, ltb, nat_eq, ◌==◌, if◌then◌else◌, ℤ, pos, negsuc,
}
use tt.Config.{Config, Result, ok, err, get}
use tt.Config.Data.{
  Width, any_width, w8, w16, w32, w64, Scalar, string, int, uint, float, bool, Key, Value, nil,
  scalar, list, map_any, map_string, config, Items, no_items, item, Entries, end, entry, Fields,
  ConfigPath, lookup,
}

-- What the validators use of fmt, strconv and reflect and is not modelled here.
pub record Go : Type 0 where
  -- fmt.Sprint
  pub sprint : Value → String
  -- strconv.ParseFloat at 64 bits; `none` for an error
  pub parse_float : String → Option ℕ
  -- the conversions to float64
  pub float_of_int : ℤ → ℕ
  pub float_of_uint : ℕ → ℕ
  pub float_of_float32 : ℕ → ℕ
  -- reflect.Value.Comparable
  pub comparable : Value → Bool
  -- whether the second value can be converted to the type of the first and is then equal to it
  pub equal_converted : Value → Value → Bool
  -- == of two keys
  pub key_eq : Key → Key → Bool

-- The types that implement `Validator`.
mutual
  pub data Validator : Type 0 where
    any_validator string_validator boolean_validator integer_validator number_validator : Validator
    sequence_validator : Validators → Validator
    allowed_validator : Validator → List Value → Validator
    array_validator : Validator → Validator
    record_validator : RecordItems → Validator
    map_validator : Validator → Validator → Validator

  pub data Validators : Type 0 where
    no_validators : Validators
    validator : Validator → Validators → Validators

  pub data RecordItems : Type 0 where
    no_fields : RecordItems
    record_item : String → Validator → RecordItems → RecordItems

-- A value and a nil error, a joined error, or a panic of the run time: a key that cannot be hashed.
pub data Checked : Type 0 where
  valid : Value → Checked
  invalid : List ValidateError → Checked
  panic : Checked

abbrev pub fail : ConfigPath → RawError → Checked
fail path e = invalid (wrap_validate_errors path (raw e ∷ []))

unfoldable pub validate_any : Value → Checked
validate_any nil = fail [] nil_value
validate_any v = valid v

module _ (go : Go) where
  unfoldable pub validate_string : Value → Checked
  validate_string (scalar (string s)) = valid (scalar (string s))
  validate_string (scalar s) = valid (scalar (string (go.sprint (scalar s))))
  validate_string v = fail [] (unexpected v)

-- int(u) of an unsigned number of 64 bits.
unfoldable pub int_of_uint : ℕ → ℤ
int_of_uint u = if ltb u (2 ^ 63) then pos u else negsuc (2 ^ 64 - 1 - u)

-- The switch of `BooleanValidator` compares types too: of the integers only `int` matches.
unfoldable pub validate_boolean : Value → Checked
validate_boolean (scalar (string s)) =
    if lower_eq s "true"
    then valid (scalar (bool true))
    else if lower_eq s "false"
    then valid (scalar (bool false))
    else fail [] (unexpected (scalar (string s)))
validate_boolean (scalar (bool b)) = valid (scalar (bool b))
validate_boolean (scalar (int any_width (pos n))) =
    if nat_eq n 1
    then valid (scalar (bool true))
    else if nat_eq n 0
    then valid (scalar (bool false))
    else fail [] (unexpected (scalar (int any_width (pos n))))
validate_boolean v = fail [] (unexpected v)

unfoldable pub validate_integer : Value → Checked
unfolding int_of_uint
validate_integer (scalar (string s)) = elim (parse_int s) [
  | some n ↦ valid (scalar (int any_width n))
  | none ↦ fail [] (parse_failed (scalar (string s)))
]
validate_integer (scalar (int w n)) = valid (scalar (int any_width n))
validate_integer (scalar (uint w n)) = valid (scalar (int any_width (int_of_uint n)))
validate_integer v = fail [] (unexpected v)

module _ (go : Go) where
  unfoldable pub validate_number : Value → Checked
  validate_number (scalar (string s)) = elim (go.parse_float s) [
    | some x ↦ valid (scalar (float w64 x))
    | none ↦ fail [] (parse_failed (scalar (string s)))
  ]
  validate_number (scalar (int w n)) = valid (scalar (float w64 (go.float_of_int n)))
  validate_number (scalar (uint w n)) = valid (scalar (float w64 (go.float_of_uint n)))
  validate_number (scalar (float w32 x)) = valid (scalar (float w64 (go.float_of_float32 x)))
  validate_number (scalar (float w x)) = valid (scalar (float w64 x))
  validate_number v = fail [] (unexpected v)

  -- The loop of `AllowedValidator`.
  unfoldable pub is_allowed : Value → List Value → Bool
  is_allowed v [] = false
  is_allowed v (a ∷ rest) = if go.equal_converted v a then true else is_allowed v rest

  unfoldable pub check_allowed : List Value → Value → Checked → Checked
  check_allowed allowed value (valid v) =
      if go.comparable v
      then (if is_allowed v allowed then valid v else fail [] (not_allowed value))
      else fail [] (not_comparable value)
  check_allowed allowed value r = r

unfoldable pub items_of : List Value → Items
items_of [] = no_items
items_of (v ∷ l) = item v (items_of l)

abbrev pub invalid_or : List AnyError → Value → Checked
invalid_or [] v = valid v
invalid_or errs v = invalid (wrap_validate_errors [] errs)

-- An error that is wrapped in a path before it is kept.
abbrev pub kept : ConfigPath → List ValidateError → AnyError
kept path es = joined (wrap_validate_errors path (joined es ∷ []))

-- The loop of `ArrayValidator`, with the values and the errors so far.
unfoldable pub check_items : (Value → Checked) → Items → List Value → List AnyError → Checked
unfolding items_of
check_items check no_items out errs = invalid_or errs (list (items_of out))
check_items check (item v rest) out errs = elim (check v) [
  | valid w ↦ check_items check rest (out ++ w ∷ []) errs
  | invalid es ↦ check_items check rest out (errs ++ kept [] es ∷ [])
  | panic ↦ panic
]

-- A value as a key of a map; `none` where Go panics, since it cannot be hashed.
abbrev pub as_key : Value → Option Key
as_key nil = some none
as_key (scalar s) = some (some s)
as_key _ = none

abbrev pub key_value : Key → Value
key_value none = nil
key_value (some s) = scalar s

module _ (go : Go) where
  -- The write `out[key] = v`.
  unfoldable pub write : Key → Value → Entries → Entries
  write key v end = entry key v end
  write key v (entry j w m) = if go.key_eq j key then entry j v m else entry j w (write key v m)

  unfoldable pub check_array : (Value → Checked) → Value → Checked
  unfolding check_items
  check_array check (list l) = check_items check l [] []
  check_array check v = fail (go.sprint v ∷ []) must_be_array

  -- The loop of `MapValidator`.
  unfoldable pub check_entries :
      (Value → Checked) → (Value → Checked) → Entries → Entries → List AnyError → Checked
  unfolding write
  check_entries check_key check_value end out errs = invalid_or errs (map_any out)
  check_entries check_key check_value (entry k v rest) out errs = elim (check_key (key_value k)) [
    | invalid es ↦ check_entries check_key check_value rest out (errs ++ kept [] es ∷ [])
    | panic ↦ panic
    | valid rkey ↦ elim (check_value v) [
      | invalid es ↦
          check_entries check_key check_value rest out
            (errs ++ kept (go.sprint (key_value k) ∷ []) es ∷ [])
      | panic ↦ panic
      | valid rvalue ↦ elim (as_key rkey) [
        | some key ↦ check_entries check_key check_value rest (write key rvalue out) errs
        | none ↦ panic
      ]
    ]
  ]

  unfoldable pub check_map : (Value → Checked) → (Value → Checked) → Value → Checked
  unfolding check_entries
  check_map check_key check_value (map_any m) = check_entries check_key check_value m end []
  check_map check_key check_value v = fail (go.sprint v ∷ []) must_be_map

  unfoldable pub check_fields : (Entries → Checked) → Value → Checked
  check_fields check (map_any m) = check m
  check_fields check v = fail (go.sprint v ∷ []) must_be_map

  -- `Validate` of each validator.
  unfoldable mutual
    pub validate : Validator → Value → Checked
    validate any_validator v = validate_any v
    validate string_validator v = validate_string go v
    validate boolean_validator v = validate_boolean v
    validate integer_validator v = validate_integer v
    validate number_validator v = validate_number go v
    validate (sequence_validator vs) v = validate_first vs v []
    validate (allowed_validator w allowed) v = check_allowed go allowed v (validate w v)
    validate (array_validator w) v = check_array (validate w) v
    validate (record_validator items) v = check_fields (λ m. validate_fields items m end []) v
    validate (map_validator k w) v = check_map (validate k) (validate w) v

    -- The loop of `SequenceValidator`.
    pub validate_first : Validators → Value → List AnyError → Checked
    validate_first no_validators v errs = invalid_or errs v
    validate_first (validator w rest) v errs = elim (validate w v) [
      | valid ret ↦ valid ret
      | invalid es ↦ validate_first rest v (errs ++ joined es ∷ [])
      | panic ↦ panic
    ]

    -- The loop of `RecordValidator`.
    pub validate_fields : RecordItems → Entries → Entries → List AnyError → Checked
    validate_fields no_fields m out errs = invalid_or errs (map_any out)
    validate_fields (record_item k w rest) m out errs = elim (lookup k m) [
      | none ↦ validate_fields rest m out errs
      | some v ↦ elim (validate w v) [
        | valid ret ↦ validate_fields rest m (write (some (string k)) ret out) errs
        | invalid es ↦ validate_fields rest m out (errs ++ kept (k ∷ []) es ∷ [])
        | panic ↦ panic
      ]
    ]
