-- ===== src/Config/Cast.antt =====
-- `deepCastStringMapToAnyMap` and `Elems`.
use tt.Prelude.{◌≡◌, refl, ap}
use tt.Config.Data.{
  Value, nil, scalar, list, map_any, map_string, config, Items, no_items, item, Entries, end, entry,
  Fields, no_fields, field,
}
use tt.Config.{deep_cast, cast_items, cast_entries, cast_fields}

-- No map[string]any stands in the value, at any depth (a *Config is not looked into).
abbrev mutual
  pub IsCast : Value → Type 0
  IsCast nil = Unit
  IsCast (scalar s) = Unit
  IsCast (list l) = AreCastItems l
  IsCast (map_any m) = AreCastEntries m
  IsCast (map_string m) = ⊥
  IsCast (config v) = Unit

  pub AreCastItems : Items → Type 0
  AreCastItems no_items = Unit
  AreCastItems (item v l) = IsCast v × AreCastItems l

  pub AreCastEntries : Entries → Type 0
  AreCastEntries end = Unit
  AreCastEntries (entry k v m) = IsCast v × AreCastEntries m

-- After the cast no map[string]any is left at any depth.
mutual
  unfolding deep_cast

  value-IsCast : (v : Value) → IsCast (deep_cast v)
  value-IsCast nil = tt
  value-IsCast (scalar s) = tt
  value-IsCast (list l) = items-IsCast l
  value-IsCast (map_any m) = entries-IsCast m
  value-IsCast (map_string m) = fields-IsCast m
  value-IsCast (config v) = tt

  items-IsCast : (l : Items) → AreCastItems (cast_items l)
  items-IsCast no_items = tt
  items-IsCast (item v l) = (value-IsCast v, items-IsCast l)

  entries-IsCast : (m : Entries) → AreCastEntries (cast_entries m)
  entries-IsCast end = tt
  entries-IsCast (entry k v m) = (value-IsCast v, entries-IsCast m)

  fields-IsCast : (m : Fields) → AreCastEntries (cast_fields m)
  fields-IsCast no_fields = tt
  fields-IsCast (field k v m) = (value-IsCast v, fields-IsCast m)

mutual
  unfolding deep_cast

  cast_id : (v : Value) → IsCast v → deep_cast v ≡ v
  cast_id nil h = refl
  cast_id (scalar s) h = refl
  cast_id (list l) h = ap list (cast_items_id l h)
  cast_id (map_any m) h = ap map_any (cast_entries_id m h)
  cast_id (map_string m) h = absurd h
  cast_id (config v) h = refl

  cast_items_id : (l : Items) → AreCastItems l → cast_items l ≡ l
  cast_items_id no_items h = refl
  cast_items_id (item v l) h = cc (cast_id v h.0, cast_items_id l h.1)

  cast_entries_id : (m : Entries) → AreCastEntries m → cast_entries m ≡ m
  cast_entries_id end h = refl
  cast_entries_id (entry k v m) h = cc (cast_id v h.0, cast_entries_id m h.1)

-- The cast leaves no map[string]any at any depth, and a value that has none as it is; so casting
-- twice is casting once.
pub deep_cast-IsCast :
    (v : Value)
    → IsCast (deep_cast v) × (IsCast v → deep_cast v ≡ v) × (deep_cast (deep_cast v) ≡ deep_cast v)
deep_cast-IsCast v = (value-IsCast v, cast_id v, cast_id (deep_cast v) (value-IsCast v))
