-- ===== src/Config/Trees.antt =====
-- `Merge` and the writes of `Set` keep a tree a tree.
use tt.Prelude.{
  String, ◌≡◌, refl, none, some, [], ◌∷◌, arith, ◌==◌, eq_iff, if◌then◌else◌, Bool-cases, inl, inr,
  List, map, All, All-append,
}
use tt.Config.Data.{
  Scalar, string, Value, nil, scalar, list, map_any, map_string, config, Entries, end, entry,
  ConfigPath, is_nil, lookup, at, put,
}
use tt.Config.{Config, Visit, merge_visit, merge_visits, merge}
use tt.Config.Tree.{find, place, is_key-eq}
use tt.Config.Visits.{IsTree, IsTreeEntries, under, tree_visits, tree_entries, for_each-eq}
use tt.Config.Visits.Plain.{IsPlain, visits-IsPlain}
use tt.Config.Merge.{merge_visit-eq-place}

lookup-put :
    (j k : String) (x : Value) (m : Entries)
    → lookup k (put j x m) ≡ (if j == k then some x else lookup k m)
unfolding lookup put
lookup-put j k x end = ground arith
lookup-put j k x (entry i w m) = ground (arith, is_key-eq j k i, eq_iff j k, lookup-put j k x m)

put-IsTree :
    (k : String) (x : Value) (m : Entries) → IsTree x → IsTreeEntries m → IsTreeEntries (put k x m)
unfolding put lookup
put-IsTree k x end t h = (t, refl, tt)
put-IsTree k x (entry (some (string s)) w m) t h = elim (Bool-cases (s == k)) [
  | inl same ↦ rw same (t, h.1, h.2)
  | inr other ↦ rw other (
    h.0,
    ground (arith, lookup-put k s x m, other, eq_iff s k, eq_iff k s, h.1),
    put-IsTree k x m t h.2,
  )
]
put-IsTree k x (entry (some (Scalar.int _ _)) v m) t h = put-IsTree k x m t h
put-IsTree k x (entry (some (Scalar.uint _ _)) v m) t h = put-IsTree k x m t h
put-IsTree k x (entry (some (Scalar.float _ _)) v m) t h = put-IsTree k x m t h
put-IsTree k x (entry (some (Scalar.bool _)) v m) t h = put-IsTree k x m t h
put-IsTree k x (entry none v m) t h = put-IsTree k x m t h

at-IsTree : (k : String) (m : Entries) → IsTreeEntries m → IsTree (at k m)
unfolding at
at-IsTree k end h = tt
at-IsTree k (entry (some (string s)) w m) h = elim (Bool-cases (s == k)) [
  | inl same ↦ rw same h.0
  | inr other ↦ rw other (at-IsTree k m h.2)
]
at-IsTree k (entry (some (Scalar.int _ _)) v m) h = at-IsTree k m h
at-IsTree k (entry (some (Scalar.uint _ _)) v m) h = at-IsTree k m h
at-IsTree k (entry (some (Scalar.float _ _)) v m) h = at-IsTree k m h
at-IsTree k (entry (some (Scalar.bool _)) v m) h = at-IsTree k m h
at-IsTree k (entry none v m) h = at-IsTree k m h

-- A write keeps a tree a tree.
pub place-IsTree : (p : ConfigPath) (x v : Value) → IsTree x → IsTree v → IsTree (place p x v)
unfolding place
place-IsTree [] x v tx tv = tx
place-IsTree (k ∷ p) x nil tx tv = put-IsTree k (place p x nil) end (place-IsTree p x nil tx tt) tt
place-IsTree (k ∷ p) x (map_any m) tx tv =
    put-IsTree k (place p x (at k m)) m (place-IsTree p x (at k m) tx (at-IsTree k m tv)) tv
place-IsTree (k ∷ p) x _ tx tv = tv

abbrev HoldsTree : Visit → Type 0
HoldsTree (p, x) = IsTree x

All-HoldsTree-under :
    (k : String) (l : List Visit) → All HoldsTree l → All HoldsTree (map (under k) l)
All-HoldsTree-under k [] h = tt
All-HoldsTree-under k ((p, x) ∷ l) h = (h.0, All-HoldsTree-under k l h.1)

mutual
  unfolding tree_visits

  visits-HoldsTree : (v : Value) → IsTree v → All HoldsTree (tree_visits v)
  visits-HoldsTree nil t = tt
  visits-HoldsTree (scalar s) t = (tt, tt)
  visits-HoldsTree (list l) t = (tt, tt)
  visits-HoldsTree (map_string m) t = (tt, tt)
  visits-HoldsTree (config v) t = absurd t
  visits-HoldsTree (map_any end) t = (tt, tt)
  visits-HoldsTree (map_any (entry k v m)) t = entries-HoldsTree (entry k v m) t

  entries-HoldsTree : (m : Entries) → IsTreeEntries m → All HoldsTree (tree_entries m)
  entries-HoldsTree end t = tt
  entries-HoldsTree (entry (some (string j)) v m) t =
      All-append HoldsTree (map (under j) (tree_visits v)) (tree_entries m)
        (All-HoldsTree-under j (tree_visits v) (visits-HoldsTree v t.0)) (entries-HoldsTree m t.2)
  entries-HoldsTree (entry (some (Scalar.int _ _)) v m) t = entries-HoldsTree m t
  entries-HoldsTree (entry (some (Scalar.uint _ _)) v m) t = entries-HoldsTree m t
  entries-HoldsTree (entry (some (Scalar.float _ _)) v m) t = entries-HoldsTree m t
  entries-HoldsTree (entry (some (Scalar.bool _)) v m) t = entries-HoldsTree m t
  entries-HoldsTree (entry none v m) t = entries-HoldsTree m t

merge_visit-IsTree :
    (c : Config) (p : ConfigPath) (x : Value)
    → IsPlain (p, x)
    → IsTree x
    → IsTree c.paths
    → IsTree (merge_visit c (p, x)).paths
merge_visit-IsTree c p x plain tx tc =
    rw (merge_visit-eq-place c p x, plain.2 p)
      (elim (Bool-cases (is_nil (find p c.paths))) [
        | inl e ↦ rw e (place-IsTree p x c.paths tx tc)
        | inr e ↦ rw e tc
      ])

merge_visits-IsTree :
    (l : List Visit) (c : Config)
    → All IsPlain l
    → All HoldsTree l
    → IsTree c.paths
    → IsTree (merge_visits c l).paths
unfolding merge_visits
merge_visits-IsTree [] c plain h t = t
merge_visits-IsTree ((p, x) ∷ l) c plain h t =
    merge_visits-IsTree l (merge_visit c (p, x)) plain.1 h.1
      (merge_visit-IsTree c p x plain.0 h.0 t)

-- Merged trees are a tree.
pub merge-IsTree : (c low : Config) → IsTree low.paths → IsTree c.paths → IsTree (merge c low).paths
unfolding merge
merge-IsTree c low tree t = rw (for_each-eq low) (
    merge_visits-IsTree (tree_visits low.paths) c (visits-IsPlain low.paths tree)
      (visits-HoldsTree low.paths tree) t)
