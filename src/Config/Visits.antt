-- ===== src/Config/Visits.antt =====
-- The calls that `forEachMap` makes, as a function of the tree alone.
pub mod Apart
pub mod Plain
pub mod Leaves
use tt.Prelude.{
  String, ◌≡◌, refl, sym, ◌∙◌, true, false, ◌&&◌, none, some, [], ◌∷◌, ◌++◌, arith, ◌==◌, eq_iff,
  if◌then◌else◌, List, map, All, All-append,
}
use mathlib.Core.List.{append_assoc, map-append, append-nil}
use tt.Config.Data.{
  Scalar, string, Value, nil, scalar, list, map_any, map_string, config, Entries, end, entry,
  ConfigPath, is_nil, lookup, at,
}
use tt.Config.{Config, Visit, is_end, visits, visits_entries, for_each}
use tt.Config.Tree.{leaf, leaf_of, path_eq, comparable, at-end, at-lookup-none}
use tt.Config.Tree.Place.{leaf-nil}
use tt.Config.Access.{written}

-- A tree as YAML decoding and `Set` build it: the string keys of a map differ, and no *Config
-- stands in it.
abbrev mutual
  pub IsTree : Value → Type 0
  IsTree nil = Unit
  IsTree (scalar s) = Unit
  IsTree (list l) = Unit
  IsTree (map_any m) = IsTreeEntries m
  IsTree (map_string m) = Unit
  IsTree (config v) = ⊥

  pub IsTreeEntries : Entries → Type 0
  IsTreeEntries end = Unit
  IsTreeEntries (entry (some (string k)) v m) = IsTree v × (lookup k m ≡ none) × IsTreeEntries m
  IsTreeEntries (entry (some (Scalar.int _ _)) v m) = IsTreeEntries m
  IsTreeEntries (entry (some (Scalar.uint _ _)) v m) = IsTreeEntries m
  IsTreeEntries (entry (some (Scalar.float _ _)) v m) = IsTreeEntries m
  IsTreeEntries (entry (some (Scalar.bool _)) v m) = IsTreeEntries m
  IsTreeEntries (entry none v m) = IsTreeEntries m

abbrev pub under : String → Visit → Visit
under k (p, x) = (k ∷ p, x)

abbrev prefix : ConfigPath → Visit → Visit
prefix pre (p, x) = (pre ++ p, x)

-- The same calls, with paths that begin at the value itself.
unfoldable mutual
  pub tree_visits : Value → List Visit
  tree_visits (map_any m) = if is_end m then ([], map_any m) ∷ [] else tree_entries m
  tree_visits nil = []
  tree_visits (scalar s) = ([], scalar s) ∷ []
  tree_visits (list l) = ([], list l) ∷ []
  tree_visits (map_string m) = ([], map_string m) ∷ []
  tree_visits (config v) = ([], config v) ∷ []

  pub tree_entries : Entries → List Visit
  tree_entries end = []
  tree_entries (entry (some (string k)) v m) = map (under k) (tree_visits v) ++ tree_entries m
  tree_entries (entry (some _) v m) = tree_entries m
  tree_entries (entry none v m) = tree_entries m

prefix-under :
    (pre : ConfigPath) (k : String) (l : List Visit)
    → map (prefix (pre ++ k ∷ [])) l ≡ map (prefix pre) (map (under k) l)
prefix-under pre k [] = refl
prefix-under pre k ((p, x) ∷ l) = cc (prefix-under pre k l, append_assoc pre (k ∷ []) p)

prefix-nil : (l : List Visit) → map (prefix []) l ≡ l
prefix-nil [] = refl
prefix-nil ((p, x) ∷ l) = cc (prefix-nil l)

mutual
  unfolding visits tree_visits

  visits-eq : (pre : ConfigPath) (v : Value) → visits pre v ≡ map (prefix pre) (tree_visits v)
  visits-eq pre (map_any end) = cc (append-nil pre)
  visits-eq pre (map_any (entry k v m)) = visits_entries-eq pre (entry k v m)
  visits-eq pre nil = refl
  visits-eq pre (scalar s) = cc (append-nil pre)
  visits-eq pre (list l) = cc (append-nil pre)
  visits-eq pre (map_string m) = cc (append-nil pre)
  visits-eq pre (config v) = cc (append-nil pre)

  visits_entries-eq :
      (pre : ConfigPath) (m : Entries) → visits_entries pre m ≡ map (prefix pre) (tree_entries m)
  visits_entries-eq pre end = refl
  visits_entries-eq pre (entry (some (string k)) v m) = cc (
    visits-eq (pre ++ k ∷ []) v,
    visits_entries-eq pre m,
    prefix-under pre k (tree_visits v),
    map-append (prefix pre) (map (under k) (tree_visits v)) (tree_entries m),
  )
  visits_entries-eq pre (entry (some _) v m) = visits_entries-eq pre m
  visits_entries-eq pre (entry none v m) = visits_entries-eq pre m

-- `Merge` visits the whole tree.
pub for_each-eq : (c : Config) → for_each [] c ≡ tree_visits c.paths
unfolding for_each tree_visits
for_each-eq c = at_root c.paths
  where
    at_root : (v : Value) → for_each [] (record { paths = v }) ≡ tree_visits v
    at_root nil = refl
    at_root (scalar s) = refl
    at_root (list l) = refl
    at_root (map_string m) = refl
    at_root (config v) = refl
    at_root (map_any end) = refl
    at_root (map_any (entry k v m)) =
        visits_entries-eq [] (entry k v m) ∙ prefix-nil (tree_entries (entry k v m))
