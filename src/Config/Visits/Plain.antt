-- ===== src/Config/Visits/Plain.antt =====
-- What `forEachMap` hands to its callback.
use tt.Prelude.{
  String, ◌≡◌, refl, false, none, some, [], ◌∷◌, if◌then◌else◌, List, map, All, All-append,
}
use tt.Config.Data.{
  Scalar, string, Value, nil, scalar, list, map_any, map_string, config, Entries, end, entry,
  ConfigPath, is_nil,
}
use tt.Config.{Visit}
use tt.Config.Tree.{leaf, leaf_of, path_eq, at-end}
use tt.Config.Tree.Place.{leaf-nil}
use tt.Config.Access.{written}
use tt.Config.Visits.{IsTree, IsTreeEntries, under, tree_visits, tree_entries}

-- What a visit hands to the callback: nothing stands below the value, and `Set` writes it as it is.
abbrev pub IsPlain : Visit → Type 0
IsPlain (p, x) =
    ((q : ConfigPath) → leaf q x ≡ (if path_eq [] q then leaf_of x else nil))
    × (is_nil x ≡ false)
    × ((p' : ConfigPath) → written p' x ≡ x)

All-under : (k : String) (l : List Visit) → All IsPlain l → All IsPlain (map (under k) l)
All-under k [] h = tt
All-under k ((p, x) ∷ l) h = (h.0, All-under k l h.1)

plain :
    (p : ConfigPath) (x : Value)
    → ((k : String) (q : ConfigPath) → leaf (k ∷ q) x ≡ nil)
    → is_nil x ≡ false
    → ((k : String) (q : ConfigPath) → written (k ∷ q) x ≡ x)
    → IsPlain (p, x)
unfolding leaf
plain p x below there kept =
    (elim [ [] ↦ refl | k ∷ q ↦ below k q ], there, elim [ [] ↦ refl | k ∷ q ↦ kept k q ])

mutual
  unfolding tree_visits leaf

  pub visits-IsPlain : (v : Value) → IsTree v → All IsPlain (tree_visits v)
  visits-IsPlain nil t = tt
  visits-IsPlain (scalar s) t = (plain [] (scalar s) (λ k q. refl) refl (λ k q. refl), tt)
  visits-IsPlain (list l) t = (plain [] (list l) (λ k q. refl) refl (λ k q. refl), tt)
  visits-IsPlain (map_string m) t = (plain [] (map_string m) (λ k q. refl) refl (λ k q. refl), tt)
  visits-IsPlain (config v) t = absurd t
  visits-IsPlain (map_any end) t =
      (plain [] (map_any end) (λ k q. rw (at-end k) (leaf-nil q)) refl (λ k q. refl), tt)
  visits-IsPlain (map_any (entry k v m)) t = entries-IsPlain (entry k v m) t

  entries-IsPlain : (m : Entries) → IsTreeEntries m → All IsPlain (tree_entries m)
  entries-IsPlain end t = tt
  entries-IsPlain (entry (some (string j)) v m) t =
      All-append IsPlain (map (under j) (tree_visits v)) (tree_entries m)
        (All-under j (tree_visits v) (visits-IsPlain v t.0)) (entries-IsPlain m t.2)
  entries-IsPlain (entry (some (Scalar.int _ _)) v m) t = entries-IsPlain m t
  entries-IsPlain (entry (some (Scalar.uint _ _)) v m) t = entries-IsPlain m t
  entries-IsPlain (entry (some (Scalar.float _ _)) v m) t = entries-IsPlain m t
  entries-IsPlain (entry (some (Scalar.bool _)) v m) t = entries-IsPlain m t
  entries-IsPlain (entry none v m) t = entries-IsPlain m t
