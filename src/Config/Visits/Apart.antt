-- ===== src/Config/Visits/Apart.antt =====
-- The visited paths of a tree: none is a beginning of another.
use tt.Prelude.{
  String, ◌≡◌, false, none, some, [], ◌∷◌, ◌++◌, arith, ◌==◌, eq_iff, List, map, All, All-append,
}
use tt.Config.Data.{
  Scalar, string, Value, nil, scalar, list, map_any, map_string, config, Entries, end, entry,
  ConfigPath, lookup,
}
use tt.Config.{Visit}
use tt.Config.Tree.{comparable}
use tt.Config.Visits.{IsTree, IsTreeEntries, under, tree_visits, tree_entries}

-- No path of the list is a beginning of a later one, nor has a later one as a beginning.
abbrev pub Apart : List Visit → Type 0
Apart [] = Unit
Apart ((p, x) ∷ l) = All (λ w. comparable p w.0 ≡ false) l × Apart l

under_one :
    (k : String) (p : ConfigPath) (l : List Visit)
    → All (λ w. comparable p w.0 ≡ false) l
    → All (λ w. comparable (k ∷ p) w.0 ≡ false) (map (under k) l)
under_one k p [] a = tt
under_one k p ((q, x) ∷ l) a = (ground (arith, a.0), under_one k p l a.1)

Apart-under : (k : String) (l : List Visit) → Apart l → Apart (map (under k) l)
Apart-under k [] a = tt
Apart-under k ((p, x) ∷ l) a = (under_one k p l a.0, Apart-under k l a.1)

Apart-append :
    (a b : List Visit)
    → Apart a
    → Apart b
    → All (λ w. All (λ u. comparable w.0 u.0 ≡ false) b) a
    → Apart (a ++ b)
Apart-append [] b ha hb h = hb
Apart-append ((p, x) ∷ a) b ha hb h =
    (All-append (λ w. comparable p w.0 ≡ false) a b ha.0 h.0, Apart-append a b ha.1 hb h.1)

under_other :
    (j k : String) (p : ConfigPath) (l : List Visit)
    → (k == j) ≡ false
    → All (λ w. comparable (k ∷ p) w.0 ≡ false) (map (under j) l)
under_other j k p [] h = tt
under_other j k p ((q, x) ∷ l) h = (ground (arith, h), under_other j k p l h)

-- Under another key than the map has, no visited path is comparable.
entries-apart :
    (k : String) (p : ConfigPath) (m : Entries)
    → lookup k m ≡ none
    → All (λ w. comparable (k ∷ p) w.0 ≡ false) (tree_entries m)
unfolding tree_entries lookup
entries-apart k p end h = tt
entries-apart k p (entry (some (string j)) v m) h =
    All-append (λ w. comparable (k ∷ p) w.0 ≡ false) (map (under j) (tree_visits v))
      (tree_entries m)
      (under_other j k p (tree_visits v) (ground (arith, h, eq_iff j k, eq_iff k j)))
      (entries-apart k p m (ground (arith, h)))
entries-apart k p (entry (some (Scalar.int _ _)) v m) h = entries-apart k p m h
entries-apart k p (entry (some (Scalar.uint _ _)) v m) h = entries-apart k p m h
entries-apart k p (entry (some (Scalar.float _ _)) v m) h = entries-apart k p m h
entries-apart k p (entry (some (Scalar.bool _)) v m) h = entries-apart k p m h
entries-apart k p (entry none v m) h = entries-apart k p m h

under-apart :
    (k : String) (l b : List Visit)
    → ((p : ConfigPath) → All (λ u. comparable (k ∷ p) u.0 ≡ false) b)
    → All (λ w. All (λ u. comparable w.0 u.0 ≡ false) b) (map (under k) l)
under-apart k [] b h = tt
under-apart k ((p, x) ∷ l) b h = (h p, under-apart k l b h)

mutual
  unfolding tree_visits

  pub visits-Apart : (v : Value) → IsTree v → Apart (tree_visits v)
  visits-Apart nil t = tt
  visits-Apart (scalar s) t = (tt, tt)
  visits-Apart (list l) t = (tt, tt)
  visits-Apart (map_string m) t = (tt, tt)
  visits-Apart (config v) t = absurd t
  visits-Apart (map_any end) t = (tt, tt)
  visits-Apart (map_any (entry k v m)) t = entries-Apart (entry k v m) t

  entries-Apart : (m : Entries) → IsTreeEntries m → Apart (tree_entries m)
  entries-Apart end t = tt
  entries-Apart (entry (some (string j)) v m) t =
      Apart-append (map (under j) (tree_visits v)) (tree_entries m)
        (Apart-under j (tree_visits v) (visits-Apart v t.0)) (entries-Apart m t.2)
        (under-apart j (tree_visits v) (tree_entries m) (λ p. entries-apart j p m t.1))
  entries-Apart (entry (some (Scalar.int _ _)) v m) t = entries-Apart m t
  entries-Apart (entry (some (Scalar.uint _ _)) v m) t = entries-Apart m t
  entries-Apart (entry (some (Scalar.float _ _)) v m) t = entries-Apart m t
  entries-Apart (entry (some (Scalar.bool _)) v m) t = entries-Apart m t
  entries-Apart (entry none v m) t = entries-Apart m t
