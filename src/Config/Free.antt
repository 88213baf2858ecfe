-- ===== src/Config/Free.antt =====
-- The paths that a configuration leaves free, and how `Merge` leaves them free.
use tt.Prelude.{
  String, ◌≡◌, true, false, none, some, [], ◌∷◌, arith, ◌==◌, eq_iff, Bool-cases, inl, inr, List,
  map, All, All-append,
}
use tt.Config.Data.{
  Scalar, string, Value, nil, scalar, list, map_any, map_string, config, Entries, end, entry,
  ConfigPath, at,
}
use tt.Config.{Config, Visit, merge_visit, merge_visits, merge}
use tt.Config.Tree.{find, clear, place, free, at-put, at-end, at-lookup-none}
use tt.Config.Tree.Place.{find-nil, clear-nil}
use tt.Config.Visits.{IsTree, IsTreeEntries, under, tree_visits, tree_entries, for_each-eq}
use tt.Config.Visits.Plain.{IsPlain, visits-IsPlain}
use tt.Config.Merge.{merge_visit-eq-place}

pub free-nil : (q : ConfigPath) → free q nil ≡ true
unfolding free
free-nil q = ground (arith, find-nil q, clear-nil q)

-- A write of the visited value leaves `q` free where it was free.
abbrev Spares : ConfigPath → Visit → Type 0
Spares q (p, x) = (v : Value) → free q v ≡ true → free q (place p x v) ≡ true

Spares-under_eq :
    (j k : String) (q p : ConfigPath) (x : Value)
    → (j == k) ≡ true
    → Spares q (p, x)
    → Spares (k ∷ q) (j ∷ p, x)
unfolding free find clear place
Spares-under_eq j k q p x same spares nil h =
    ground (arith, at-put j k (place p x nil) end, spares nil, free-nil q)
Spares-under_eq j k q p x same spares (map_any m) h =
    ground (arith, at-put j k (place p x (at j m)) m, eq_iff j k, spares (at k m))
Spares-under_eq j k q p x same spares _ h = ground (arith, h)

Spares-under_ne :
    (j k : String) (q p : ConfigPath) (x : Value) → (j == k) ≡ false → Spares (k ∷ q) (j ∷ p, x)
unfolding free find clear place
Spares-under_ne j k q p x ne nil h =
    ground (arith, at-put j k (place p x nil) end, at-end k, free-nil q)
Spares-under_ne j k q p x ne (map_any m) h = ground (arith, at-put j k (place p x (at j m)) m)
Spares-under_ne j k q p x ne _ h = ground (arith, h)

All-Spares_eq :
    (j k : String) (q : ConfigPath) (l : List Visit)
    → (j == k) ≡ true
    → All (Spares q) l
    → All (Spares (k ∷ q)) (map (under j) l)
All-Spares_eq j k q [] same h = tt
All-Spares_eq j k q ((p, x) ∷ l) same h =
    (Spares-under_eq j k q p x same h.0, All-Spares_eq j k q l same h.1)

All-Spares_ne :
    (j k : String) (q : ConfigPath) (l : List Visit)
    → (j == k) ≡ false
    → All (Spares (k ∷ q)) (map (under j) l)
All-Spares_ne j k q [] ne = tt
All-Spares_ne j k q ((p, x) ∷ l) ne = (Spares-under_ne j k q p x ne, All-Spares_ne j k q l ne)

free_end : (k : String) (q : ConfigPath) → free (k ∷ q) (map_any end) ≡ true
unfolding free find clear
free_end k q = rw (at-end k) (free-nil q)

Spares-end : (k : String) (q : ConfigPath) → Spares (k ∷ q) ([], map_any end)
unfolding place
Spares-end k q v h = free_end k q

mutual
  unfolding tree_visits free at

  visits-Spares :
      (q : ConfigPath) (v : Value) → IsTree v → free q v ≡ true → All (Spares q) (tree_visits v)
  visits-Spares q nil t h = tt
  visits-Spares [] (scalar s) t h = ground (arith, h)
  visits-Spares (k ∷ q) (scalar s) t h = ground (arith, h)
  visits-Spares [] (list l) t h = ground (arith, h)
  visits-Spares (k ∷ q) (list l) t h = ground (arith, h)
  visits-Spares [] (map_string m) t h = ground (arith, h)
  visits-Spares (k ∷ q) (map_string m) t h = ground (arith, h)
  visits-Spares q (config v) t h = absurd t
  visits-Spares [] (map_any end) t h = ground (arith, h)
  visits-Spares (k ∷ q) (map_any end) t h = (Spares-end k q, tt)
  visits-Spares [] (map_any (entry k v m)) t h = ground (arith, h)
  visits-Spares (j ∷ q) (map_any (entry k v m)) t h = entries-Spares j q (entry k v m) t h

  entries-Spares :
      (k : String) (q : ConfigPath) (m : Entries)
      → IsTreeEntries m
      → free q (at k m) ≡ true
      → All (Spares (k ∷ q)) (tree_entries m)
  entries-Spares k q end t h = tt
  entries-Spares k q (entry (some (string j)) v m) t h = elim (Bool-cases (j == k)) [
    | inl same ↦
        All-append (Spares (k ∷ q)) (map (under j) (tree_visits v)) (tree_entries m)
          (All-Spares_eq j k q (tree_visits v) same
            (visits-Spares q v t.0 (ground (arith, h, same))))
          (entries-Spares k q m t.2
            (ground (arith, same, eq_iff j k, at-lookup-none j m t.1, free-nil q)))
    | inr other ↦
        All-append (Spares (k ∷ q)) (map (under j) (tree_visits v)) (tree_entries m)
          (All-Spares_ne j k q (tree_visits v) other)
          (entries-Spares k q m t.2 (ground (arith, h, other)))
  ]
  entries-Spares k q (entry (some (Scalar.int _ _)) v m) t h = entries-Spares k q m t h
  entries-Spares k q (entry (some (Scalar.uint _ _)) v m) t h = entries-Spares k q m t h
  entries-Spares k q (entry (some (Scalar.float _ _)) v m) t h = entries-Spares k q m t h
  entries-Spares k q (entry (some (Scalar.bool _)) v m) t h = entries-Spares k q m t h
  entries-Spares k q (entry none v m) t h = entries-Spares k q m t h

free-merge_visits :
    (q : ConfigPath) (l : List Visit) (c : Config)
    → All IsPlain l
    → All (Spares q) l
    → free q c.paths ≡ true
    → free q (merge_visits c l).paths ≡ true
unfolding merge_visits
free-merge_visits q [] c plain spares h = h
free-merge_visits q ((p, x) ∷ l) c plain spares h =
    free-merge_visits q l (merge_visit c (p, x)) plain.1 spares.1
      (ground (arith, merge_visit-eq-place c p x, plain.0.2 p, spares.0 c.paths h, h))

-- What both configurations leave free is free in the merged one.
pub free-merge :
    (q : ConfigPath) (c low : Config)
    → IsTree low.paths
    → free q low.paths ≡ true
    → free q c.paths ≡ true
    → free q (merge c low).paths ≡ true
unfolding merge
free-merge q c low tree hl h = rw (for_each-eq low) (
    free-merge_visits q (tree_visits low.paths) c (visits-IsPlain low.paths tree)
      (visits-Spares q low.paths tree hl) h)
