-- ===== src/Config.antt =====
-- lib/cluster/config.go: the container of a deserialized configuration.
pub mod Trees
pub mod Free
pub mod Data
pub mod Tree
pub mod Access
pub mod Visits
pub mod Merge
pub mod Layers
pub mod Cast
use Data.{
  Value, nil, scalar, list, map_any, map_string, config, Items, no_items, item, Entries, end, entry,
  Fields, no_fields, field, Key, string, ConfigPath, is_nil, lookup, at, put,
}
use tt.Prelude.{
  String, ◌≡◌, refl, Bool, true, false, ◌&&◌, not, Option, none, some, List, [], ◌∷◌, ◌++◌,
  if◌then◌else◌,
}

-- The `Config` object. `paths` is nil in a new one.
pub record Config : Type 0 where
  pub paths : Value

abbrev pub new_config : Config
new_config = record { paths = nil }

-- The errors: "path %q is not a map" and `NotExistError`.
pub data ConfigError : Type 0 where
  not_map not_exist : ConfigPath → ConfigError

pub data Result {ℓ} (A : Type ℓ) : Type ℓ where
  ok : A → Result A
  err : ConfigError → Result A

infixl 10 ◌>>=◌
abbrev pub ◌>>=◌ {ℓ κ} : {A : Type ℓ} {B : Type κ} → Result A → (A → Result B) → Result B
ok a >>= f = f a
err e >>= f = err e

-- `deepCopyMap`: the copy of a map visits every nested map.
unfoldable mutual
  pub deep_copy_map : Value → Value
  deep_copy_map (map_any m) = map_any (deep_copy_entries m)
  deep_copy_map nil = nil
  deep_copy_map (scalar s) = scalar s
  deep_copy_map (list l) = list l
  deep_copy_map (map_string m) = map_string m
  deep_copy_map (config v) = config v

  pub deep_copy_entries : Entries → Entries
  deep_copy_entries end = end
  deep_copy_entries (entry k v m) = entry k (deep_copy_map v) (deep_copy_entries m)

-- The check of a `createMaps` round: a nil becomes a new map, a map stays, all else is refused.
unfoldable pub ensure_map : ConfigPath → Value → Result Entries
ensure_map seen nil = ok end
ensure_map seen (map_any m) = ok m
ensure_map seen _ = err (not_map seen)

-- `createMaps`, and what its caller does to the map that it returns. The result is the root of the
-- tree after the writes, with the error, if any. `seen` is `path[0:i]`.
unfoldable pub create_maps :
    ConfigPath → ConfigPath → Value → (Entries → Entries) → Value × Option ConfigError
create_maps seen [] current write = elim (ensure_map seen current) [
  | ok m ↦ (map_any (write m), none)
  | err e ↦ (current, some e)
]
create_maps seen (key ∷ rest) current write = elim (ensure_map seen current) [
  | ok m ↦
      let (child, failed) = create_maps (seen ++ key ∷ []) rest (at key m) write in
      (map_any (put key child m), failed)
  | err e ↦ (current, some e)
]

-- The type assertion `.(map[any]any)`.
unfoldable pub as_map : ConfigPath → Value → Result Entries
as_map seen (map_any m) = ok m
as_map seen _ = err (not_map seen)

step_into : ConfigPath → Option Value → Result Value
step_into seen (some v) = ok v
step_into seen none = err (not_exist seen)

-- `getMap`; `seen` is `path[0:i]`.
unfoldable pub get_map : ConfigPath → ConfigPath → Value → Result Entries
unfolding as_map step_into
get_map seen [] current = as_map seen current
get_map seen (key ∷ rest) current =
    elim (as_map seen current >>= λ m. step_into (seen ++ key ∷ []) (lookup key m)) [
      | ok child ↦ get_map (seen ++ key ∷ []) rest child
      | err e ↦ err e
    ]

-- `path[0:last]` and `path[last]` of a path that is not empty.
unfoldable pub init : String → ConfigPath → ConfigPath
init key [] = []
init key (next ∷ rest) = key ∷ init next rest

unfoldable pub last : String → ConfigPath → String
last key [] = key
last key (next ∷ rest) = last next rest

-- What `Set` stores in a map: a *Config is stored as a copy of its tree.
unfoldable pub stored : Value → Value
unfolding deep_copy_map
stored (config v) = deep_copy_map v
stored v = v

-- `Config.Set`: the configuration after the call, and the error.
unfoldable pub set : ConfigPath → Value → Config → Config × Option ConfigError
set [] value c = (record { paths = value }, none)
set (key ∷ rest) value c =
    let (paths, failed) =
      create_maps [] (init key rest) c.paths (put (last key rest) (stored value)) in
    (record { paths = paths }, failed)

unfoldable pub exists : ConfigPath → Value → Result Value
exists path nil = err (not_exist path)
exists path v = ok v

-- `Config.Get`.
unfoldable pub get : ConfigPath → Config → Result Value
get [] c = exists [] c.paths
get (key ∷ rest) c = do
  m ← get_map [] (init key rest) c.paths
  exists (key ∷ rest) (at (last key rest) m)

-- The string keys of a map, in the order of a `range` over it.
unfoldable pub string_keys : Entries → List String
string_keys end = []
string_keys (entry (some (string k)) v m) = k ∷ string_keys m
string_keys (entry _ v m) = string_keys m

elems_of : ConfigPath → Value → Result (List String)
unfolding string_keys
elems_of path nil = err (not_exist path)
elems_of path (map_any m) = ok (string_keys m)
elems_of path _ = err (not_map path)

-- `Config.Elems`.
unfoldable pub elems : ConfigPath → Config → Result (List String)
unfolding elems_of
elems [] c = elems_of [] c.paths
elems (key ∷ rest) c = do m ← get_map [] (key ∷ rest) c.paths; ok (string_keys m)

abbrev pub is_end : Entries → Bool
is_end end = true
is_end _ = false

abbrev pub Visit : Type 0
Visit = ConfigPath × Value

-- The calls `fun(path, value)` that `forEachMap` makes, in order.
unfoldable mutual
  -- The body of the loop for one value.
  pub visits : ConfigPath → Value → List Visit
  visits path (map_any m) = if is_end m then (path, map_any m) ∷ [] else visits_entries path m
  visits path nil = []
  visits path (scalar s) = (path, scalar s) ∷ []
  visits path (list l) = (path, list l) ∷ []
  visits path (map_string m) = (path, map_string m) ∷ []
  visits path (config v) = (path, config v) ∷ []

  -- The loop over the keys; what is under a key that is no string is passed over.
  pub visits_entries : ConfigPath → Entries → List Visit
  visits_entries path end = []
  visits_entries path (entry (some (string k)) v m) =
      visits (path ++ k ∷ []) v ++ visits_entries path m
  visits_entries path (entry (some _) v m) = visits_entries path m
  visits_entries path (entry none v m) = visits_entries path m

-- `forEachMap`.
unfoldable pub for_each_map : ConfigPath → Entries → List Visit
unfolding visits
for_each_map path m = if is_end m then (path, map_any m) ∷ [] else visits_entries path m

for_each_target : ConfigPath → Value → List Visit
for_each_target path (map_any m) = for_each_map path m
for_each_target path v = (path, v) ∷ []

-- The calls that `Config.ForEach` makes.
unfoldable pub for_each : ConfigPath → Config → List Visit
unfolding for_each_target for_each_map
for_each [] c = if is_nil c.paths then [] else for_each_target [] c.paths
for_each (key ∷ rest) c = elim (get_map [] (init key rest) c.paths) [
  | ok m ↦ for_each_target (key ∷ rest) (at (last key rest) m)
  | err e ↦ []
]

-- The function that `Merge` hands to `ForEach`; the error of its `Set` is dropped.
unfoldable pub merge_visit : Config → Visit → Config
merge_visit c (path, value) = elim (get path c) [ ok v ↦ c | err e ↦ (set path value c).0 ]

unfoldable pub merge_visits : Config → List Visit → Config
unfolding merge_visit
merge_visits c [] = c
merge_visits c (v ∷ rest) = merge_visits (merge_visit c v) rest

-- `Config.Merge`.
unfoldable pub merge : Config → Config → Config
unfolding merge_visits
merge c low = merge_visits c (for_each [] low)

-- `deepCastStringMapToAnyMap`.
unfoldable mutual
  pub deep_cast : Value → Value
  deep_cast nil = nil
  deep_cast (scalar s) = scalar s
  deep_cast (list l) = list (cast_items l)
  deep_cast (map_any m) = map_any (cast_entries m)
  deep_cast (map_string m) = map_any (cast_fields m)
  deep_cast (config v) = config v

  pub cast_items : Items → Items
  cast_items no_items = no_items
  cast_items (item v l) = item (deep_cast v) (cast_items l)

  pub cast_entries : Entries → Entries
  cast_entries end = end
  cast_entries (entry k v m) = entry k (deep_cast v) (cast_entries m)

  pub cast_fields : Fields → Entries
  cast_fields no_fields = end
  cast_fields (field k v m) = entry (some (string k)) (deep_cast v) (cast_fields m)
