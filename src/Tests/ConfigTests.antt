-- ===== src/Tests/ConfigTests.antt =====
-- The theorems about lib/cluster/config.go at concrete configurations.
use tt.Prelude.{String, ◌≡◌, refl, ◌↔◌, some, [], ◌∷◌, if◌then◌else◌}
use tt.Config.Data.{
  Value, string, scalar, map_any, map_string, config, Entries, end, entry, no_fields, field,
  ConfigPath, lookup, at, put,
}
use tt.Config.{
  Config, ok, set, get, merge, deep_cast, get_map, init, last, exists, for_each, create_maps,
  ensure_map, stored,
}
use tt.Config.Tree.{find, free, leaf}
use tt.Config.Access.{get_iff, get-set_self, get-set_apart, set-failed}
use tt.Config.Visits.{IsTree}
use tt.Config.Merge.{leaf-merge}
use tt.Config.Cast.{IsCast, deep_cast-IsCast}

abbrev pub text : String → Value
text s = scalar (string s)

abbrev pub key : String → Value → Entries → Entries
key k v m = entry (some (string k)) v m

-- { wal: { mode: none }, app: {} }
abbrev high : Config
high = record {
  paths =
      map_any (key "wal" (map_any (key "mode" (text "none") end)) (key "app" (map_any end) end));
}

-- { wal: { mode: write, dir: /tmp }, app: { file: init.lua } }
abbrev low : Config
low = record {
  paths = map_any (
      key "wal" (map_any (key "mode" (text "write") (key "dir" (text "/tmp") end)))
        (key "app" (map_any (key "file" (text "init.lua") end)) end));
}

low-IsTree : IsTree low.paths
unfolding lookup
low-IsTree = ((tt, refl, (tt, refl, tt)), refl, ((tt, refl, tt), refl, tt))

abbrev wal_mode : ConfigPath
wal_mode = "wal" ∷ "mode" ∷ []

abbrev wal_dir : ConfigPath
wal_dir = "wal" ∷ "dir" ∷ []

-- What a run of the configuration's operations unfolds.
unfoldable pub config_runs : Unit {0}
unfolding get merge set get_map init last exists for_each create_maps ensure_map stored lookup at
    put
config_runs = tt

merge_runs :
    (get wal_mode (merge high low) ≡ ok (text "none"))
    × (get wal_dir (merge high low) ≡ ok (text "/tmp"))
    × (get ("app" ∷ "file" ∷ []) (merge high low) ≡ ok (text "init.lua"))
unfolding config_runs
merge_runs = (refl, refl, refl)

leaf-merge_example :
    leaf wal_dir (merge high low).paths
    ≡ (if free wal_dir high.paths then leaf wal_dir low.paths else leaf wal_dir high.paths)
leaf-merge_example = leaf-merge wal_dir high low low-IsTree

get-set_self_example :
    get ("app" ∷ "file" ∷ []) (set ("app" ∷ "file" ∷ []) (config (text "init.lua")) high).0
    ≡ ok (text "init.lua")
get-set_self_example =
    get-set_self ("app" ∷ "file" ∷ []) (config (text "init.lua")) high (unfold config_runs in refl)
      (λ e. cc)

get-set_apart_example :
    (get wal_mode (set wal_dir (text "/var") high).0 ≡ ok (text "none"))
    ↔ (get wal_mode high ≡ ok (text "none"))
get-set_apart_example = get-set_apart wal_dir wal_mode (text "/var") high (text "none") refl

abbrev below_mode : ConfigPath
below_mode = "wal" ∷ "mode" ∷ "x" ∷ []

set-failed_example : (set below_mode (text "y") high).0 ≡ high
set-failed_example = set-failed below_mode (text "y") high (unfold config_runs in λ e. cc)

get_iff_example : (get wal_mode high ≡ ok (text "none")) ↔ (find wal_mode high.paths ≡ text "none")
get_iff_example = get_iff wal_mode high (text "none") (λ e. cc)

-- { list: [], nested: { x: 1 } } with the inner map a map[string]any.
abbrev raw : Value
raw = map_string (field "nested" (map_string (field "x" (text "1") no_fields)) no_fields)

deep_cast-IsCast_example :
    IsCast (deep_cast raw)
    × (IsCast raw → deep_cast raw ≡ raw)
    × (deep_cast (deep_cast raw) ≡ deep_cast raw)
deep_cast-IsCast_example = deep_cast-IsCast raw
