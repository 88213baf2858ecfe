-- ===== src/Config/Visits/Leaves.antt =====
-- The values that are visited are the leaves of the tree.
use tt.Prelude.{
  String, ◌≡◌, refl, sym, true, false, ◌&&◌, none, some, [], ◌∷◌, ◌++◌, arith, ◌==◌, eq_iff,
  if◌then◌else◌, List, map,
}
use tt.Config.Data.{
  Scalar, string, Value, nil, scalar, list, map_any, map_string, config, Entries, end, entry,
  ConfigPath, is_nil, lookup, at,
}
use tt.Config.{Visit}
use tt.Config.Tree.{leaf, leaf_of, path_eq, at-lookup-none}
use tt.Config.Tree.Place.{leaf-nil}
use tt.Config.Visits.{IsTree, IsTreeEntries, under, tree_visits, tree_entries}

-- The first leaf that the list has at a path.
unfoldable pub first_leaf : ConfigPath → List Visit → Value
first_leaf q [] = nil
first_leaf q ((p, x) ∷ l) =
    if path_eq p q && (if is_nil (leaf_of x) then false else true)
    then leaf_of x
    else first_leaf q l

first_leaf-append :
    (q : ConfigPath) (a b : List Visit)
    → first_leaf q (a ++ b) ≡ (if is_nil (first_leaf q a) then first_leaf q b else first_leaf q a)
unfolding first_leaf
first_leaf-append q [] b = refl
first_leaf-append q ((p, x) ∷ a) b = ground (arith, first_leaf-append q a b)

first_leaf-under :
    (j k : String) (q : ConfigPath) (l : List Visit)
    → first_leaf (k ∷ q) (map (under j) l) ≡ (if j == k then first_leaf q l else nil)
unfolding first_leaf
first_leaf-under j k q [] = ground arith
first_leaf-under j k q ((p, x) ∷ l) = ground (arith, first_leaf-under j k q l)

first_leaf-under_nil : (k : String) (l : List Visit) → first_leaf [] (map (under k) l) ≡ nil
unfolding first_leaf
first_leaf-under_nil k [] = refl
first_leaf-under_nil k ((p, x) ∷ l) = first_leaf-under_nil k l

first_leaf-entries_nil : (m : Entries) → first_leaf [] (tree_entries m) ≡ nil
unfolding tree_entries first_leaf
first_leaf-entries_nil end = refl
first_leaf-entries_nil (entry (some (string k)) v m) = ground (
  arith,
  first_leaf-append [] (map (under k) (tree_visits v)) (tree_entries m),
  first_leaf-under_nil k (tree_visits v),
  first_leaf-entries_nil m,
)
first_leaf-entries_nil (entry (some _) v m) = first_leaf-entries_nil m
first_leaf-entries_nil (entry none v m) = first_leaf-entries_nil m

-- The leaves of a tree are the values that are visited, each at its path.
mutual
  unfolding tree_visits first_leaf leaf lookup at

  pub first_leaf-visits :
      (q : ConfigPath) (v : Value) → IsTree v → first_leaf q (tree_visits v) ≡ leaf q v
  first_leaf-visits [] (map_any end) t = refl
  first_leaf-visits (k ∷ q) (map_any end) t = sym (leaf-nil q)
  first_leaf-visits [] (map_any (entry k v m)) t = first_leaf-entries_nil (entry k v m)
  first_leaf-visits (j ∷ q) (map_any (entry k v m)) t = first_leaf-entries j q (entry k v m) t
  first_leaf-visits [] nil t = refl
  first_leaf-visits (k ∷ q) nil t = refl
  first_leaf-visits [] (scalar s) t = refl
  first_leaf-visits (k ∷ q) (scalar s) t = refl
  first_leaf-visits [] (list l) t = refl
  first_leaf-visits (k ∷ q) (list l) t = refl
  first_leaf-visits [] (map_string m) t = refl
  first_leaf-visits (k ∷ q) (map_string m) t = refl
  first_leaf-visits q (config v) t = absurd t

  first_leaf-entries :
      (k : String) (q : ConfigPath) (m : Entries)
      → IsTreeEntries m
      → first_leaf (k ∷ q) (tree_entries m) ≡ leaf q (at k m)
  first_leaf-entries k q end t = sym (leaf-nil q)
  first_leaf-entries k q (entry (some (string j)) v m) t = ground (
    arith,
    first_leaf-append (k ∷ q) (map (under j) (tree_visits v)) (tree_entries m),
    first_leaf-under j k q (tree_visits v),
    first_leaf-visits q v t.0,
    eq_iff j k,
    first_leaf-entries k q m t.2,
    at-lookup-none j m t.1,
    leaf-nil q,
  )
  first_leaf-entries k q (entry (some (Scalar.int _ _)) v m) t = first_leaf-entries k q m t
  first_leaf-entries k q (entry (some (Scalar.uint _ _)) v m) t = first_leaf-entries k q m t
  first_leaf-entries k q (entry (some (Scalar.float _ _)) v m) t = first_leaf-entries k q m t
  first_leaf-entries k q (entry (some (Scalar.bool _)) v m) t = first_leaf-entries k q m t
  first_leaf-entries k q (entry none v m) t = first_leaf-entries k q m t
