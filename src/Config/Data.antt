-- ===== src/Config/Data.antt =====
-- The values that lib/cluster/config.go keeps: what yaml.v3 decodes into `any`.
-- A Go map is a list of entries in the order in which one `range` visits them; no theorem fixes it.
use tt.Prelude.{ℕ, String, Bool, true, false, Option, none, some, List, ◌==◌, if◌then◌else◌, ℤ}

-- The sizes of Go's integer and floating types.
pub data Width : Type 0 where
  any_width w8 w16 w32 w64 : Width

-- Comparable values. A float is the bit pattern of its IEEE representation.
pub data Scalar : Type 0 where
  string : String → Scalar
  int : Width → ℤ → Scalar
  uint : Width → ℕ → Scalar
  float : Width → ℕ → Scalar
  bool : Bool → Scalar

-- The key of a map[any]any; `none` is the nil key.
abbrev pub Key : Type 0
Key = Option Scalar

-- `map_any` is a map[any]any, `map_string` a map[string]any, `list` a []any, and `config` a
-- *Config that is kept as a value.
mutual
  pub data Value : Type 0 where
    nil : Value
    scalar : Scalar → Value
    list : Items → Value
    map_any : Entries → Value
    map_string : Fields → Value
    config : Value → Value

  pub data Items : Type 0 where
    no_items : Items
    item : Value → Items → Items

  pub data Entries : Type 0 where
    end : Entries
    entry : Key → Value → Entries → Entries

  pub data Fields : Type 0 where
    no_fields : Fields
    field : String → Value → Fields → Fields

-- A path of a configuration, []string.
abbrev pub ConfigPath : Type 0
ConfigPath = List String

abbrev pub is_nil : Value → Bool
is_nil nil = true
is_nil _ = false

-- `str, ok := k.(string)`, compared with a key.
abbrev pub is_key : String → Key → Bool
is_key k (some (string s)) = s == k
is_key k _ = false

-- The read `m[k]` with a string key, in the form `v, ok := m[k]`.
unfoldable pub lookup : String → Entries → Option Value
lookup k end = none
lookup k (entry j v m) = if is_key k j then some v else lookup k m

-- The read `m[k]`, which is nil for a missing key.
unfoldable pub at : String → Entries → Value
at k end = nil
at k (entry j v m) = if is_key k j then v else at k m

-- The write `m[k] = v` with a string key.
unfoldable pub put : String → Value → Entries → Entries
put k v end = entry (some (string k)) v end
put k v (entry j w m) = if is_key k j then entry j v m else entry j w (put k v m)
