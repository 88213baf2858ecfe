-- ===== src/Tests/SchemaTests.antt =====
-- The theorems about lib/cluster/validators.go and lib/cluster/schema.go at small schemas.
use tt.Prelude.{
  ℕ, List, ◌≡◌, refl, ◌↔◌, Bool, true, false, none, some, [], ◌∷◌, arith, ◌==◌, eq_iff, pos, All,
}
use tt.Config.Data.{string, int, any_width, Key, Value, scalar, map_any, end, lookup, at}
use tt.Config.{Config, get, get_map, init, last, exists}
use tt.Schema.{
  Go, Validator, integer_validator, string_validator, boolean_validator, record_validator,
  record_item, no_fields, allowed_validator, valid, validate, validate_integer, validate_string,
  check_fields, check_allowed, is_allowed, write,
}
use tt.Schema.Paths.{SchemaPath, accepted, validate_paths, validate_config}
use tt.Scan.{parse_int}
use tt.Schema.Shape.{HasShape, TextKeys}
use tt.Schema.Accepted.{validate-HasShape}
use tt.Schema.Report.{Passes, validate_config-accepted}
use tt.Tests.ConfigTests.{text, key}

abbrev keys_eq : Key → Key → Bool
keys_eq (some (string a)) (some (string b)) = a == b
keys_eq _ _ = false

abbrev texts_eq : Value → Value → Bool
texts_eq (scalar (string a)) (scalar (string b)) = a == b
texts_eq _ _ = false

abbrev go : Go
go = record {
  sprint = λ _. "%v";
  parse_float = λ _. none;
  float_of_int = λ _. 0;
  float_of_uint = λ _. 0;
  float_of_float32 = λ x. x;
  comparable = λ _. true;
  equal_converted = texts_eq;
  key_eq = keys_eq;
}

go-TextKeys : TextKeys go
go-TextKeys a b h = ground (arith, h, eq_iff a b)

-- { mode: one of ro and rw, quorum: an integer }
abbrev schema : Validator
schema = record_validator (
    record_item "mode" (allowed_validator string_validator (text "ro" ∷ text "rw" ∷ []))
      (record_item "quorum" integer_validator no_fields))

abbrev int_of : ℕ → Value
int_of n = scalar (int any_width (pos n))

abbrev raw_value : Value
raw_value = map_any (key "mode" (text "rw") (key "quorum" (text "3") (key "junk" (text "") end)))

abbrev clean_value : Value
clean_value = map_any (key "mode" (text "rw") (key "quorum" (int_of 3) end))

schema_runs : validate go schema raw_value ≡ valid clean_value
unfolding validate validate_integer validate_string check_fields check_allowed is_allowed write
    lookup parse_int
schema_runs = refl

validate-HasShape_example : HasShape go schema clean_value
validate-HasShape_example =
    validate-HasShape go go-TextKeys schema raw_value clean_value schema_runs

abbrev c : Config
c = record { paths = map_any (key "replication" raw_value end) }

abbrev paths : List SchemaPath
paths =
    record { path = "replication" ∷ []; validator = schema }
    ∷ record { path = "no_such" ∷ []; validator = boolean_validator }
    ∷ []

validate_config_runs : validate_config go c paths ≡ accepted
unfolding validate_config validate_paths get get_map init last exists at validate validate_integer
    validate_string check_fields check_allowed is_allowed write lookup parse_int
validate_config_runs = refl

validate_config-accepted_example : (validate_config go c paths ≡ accepted) ↔ All (Passes go c) paths
validate_config-accepted_example = validate_config-accepted go c paths
