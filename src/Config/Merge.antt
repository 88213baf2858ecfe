-- ===== src/Config/Merge.antt =====
-- `Config.Merge`: what the merged configuration holds at every path.
use tt.Prelude.{
  ◌≡◌, ◌≢◌, refl, ap, ◌∙◌, true, false, ◌&&◌, [], ◌∷◌, arith, eq_iff, if◌then◌else◌, Bool-cases,
  inl, inr, ◌↔◌, List, All,
}
use tt.Config.Data.{Value, nil, ConfigPath, is_nil}
use tt.Config.{Config, Visit, Result, ok, err, get, set, merge_visit, merge_visits, merge}
use tt.Config.Tree.{find, place, free, leaf, leaf_of, path_eq, comparable}
use tt.Config.Tree.Place.{find-place_self, place_blocked, free-place_apart, leaf-place}
use tt.Config.Access.{written, value_of, get-eq-find, get-ne-nil, set-eq-place}
use tt.Config.Visits.{IsTree, tree_visits, for_each-eq}
use tt.Config.Visits.Apart.{Apart, visits-Apart}
use tt.Config.Visits.Plain.{IsPlain, visits-IsPlain}
use tt.Config.Visits.Leaves.{first_leaf, first_leaf-visits}

is_nil_of_ne : (v : Value) → v ≢ nil → is_nil v ≡ false
is_nil_of_ne nil h = absurd (h refl)
is_nil_of_ne _ h = refl

-- `Set` is called where `Get` finds nothing.
pub merge_visit-eq-place :
    (c : Config) (p : ConfigPath) (x : Value)
    → (merge_visit c (p, x)).paths
      ≡ (if is_nil (find p c.paths) then place p (written p x) c.paths else c.paths)
unfolding merge_visit
merge_visit-eq-place c p x = by_answer (get p c) (find p c.paths) refl (get-eq-find p c)
  where
    by_answer :
        (r : Result Value) (v : Value)
        → get p c ≡ r
        → value_of (get p c) ≡ v
        → (elim r as (λ _. Config) [ ok w ↦ c | err e ↦ (set p x c).0 ]).paths
          ≡ (if is_nil v then place p (written p x) c.paths else c.paths)
    by_answer (ok w) v e h =
        ground (arith, e, h, is_nil_of_ne w (λ z. get-ne-nil p c (e ∙ ap ok z)))
    by_answer (err f) v e h = ground (arith, e, h, set-eq-place p x c)

path_eq_iff : (p q : ConfigPath) → (path_eq p q ≡ true) ↔ (p ≡ q)
path_eq_iff [] [] = ground arith
path_eq_iff [] (k ∷ q) = ground arith
path_eq_iff (j ∷ p) [] = ground arith
path_eq_iff (j ∷ p) (k ∷ q) = ground (arith, eq_iff j k, path_eq_iff p q)

comparable_refl : (p : ConfigPath) → comparable p p ≡ true
comparable_refl [] = refl
comparable_refl (k ∷ p) = ground (arith, eq_iff k k, comparable_refl p)

-- A list apart from `p` has no leaf at a path that is comparable with `p`.
first_leaf-comparable :
    (p q : ConfigPath) (l : List Visit)
    → All (λ w. comparable p w.0 ≡ false) l
    → comparable p q ≡ true
    → first_leaf q l ≡ nil
unfolding first_leaf
first_leaf-comparable p q [] a h = refl
first_leaf-comparable p q ((r, x) ∷ l) a h =
    ground (arith, a.0, path_eq_iff r q, first_leaf-comparable p q l a.1 h)

pub leaf_of_free : (q : ConfigPath) (v : Value) → free q v ≡ true → leaf q v ≡ nil
unfolding free leaf
leaf_of_free q v h = ground arith

-- One visit, seen at a path.
module _ (c : Config) (p q : ConfigPath) (x : Value) (is_plain : IsPlain (p, x)) where
  leaf-merge_visit :
      leaf q (merge_visit c (p, x)).paths
      ≡ (if path_eq p q && free p c.paths then leaf_of x else leaf q c.paths)
  unfolding free
  leaf-merge_visit =
      ground (arith, merge_visit-eq-place c p x, is_plain.2 p, leaf-place p q x c.paths is_plain.0)

  free-merge_visit_apart :
      comparable p q ≡ false → free q (merge_visit c (p, x)).paths ≡ free q c.paths
  free-merge_visit_apart h =
      ground (arith, merge_visit-eq-place c p x, free-place_apart p q (written p x) c.paths h)

  free-merge_visit_self : p ≡ q → free q (merge_visit c (p, x)).paths ≡ false
  unfolding free
  free-merge_visit_self h = ground (
    arith,
    merge_visit-eq-place c p x,
    find-place_self p (written p x) c.paths,
    place_blocked p (written p x) c.paths,
    is_plain.2 p,
    is_plain.1,
    h,
  )

-- The leaves after any list of visits that are apart: what stood free takes the visited leaf.
leaf-merge_visits :
    (q : ConfigPath) (l : List Visit) (c : Config)
    → All IsPlain l
    → Apart l
    → leaf q (merge_visits c l).paths ≡ (if free q c.paths then first_leaf q l else leaf q c.paths)
unfolding merge_visits first_leaf
leaf-merge_visits q [] c plain apart = ground (arith, leaf_of_free q c.paths)
leaf-merge_visits q ((p, x) ∷ l) c plain apart = elim (Bool-cases (comparable p q)) [
  | inl near ↦ ground (
    arith,
    leaf-merge_visits q l (merge_visit c (p, x)) plain.1 apart.1,
    leaf-merge_visit c p q x plain.0,
    free-merge_visit_self c p q x plain.0,
    path_eq_iff p q,
    first_leaf-comparable p q l apart.0 near,
    leaf_of_free q c.paths,
    leaf_of_free q (merge_visit c (p, x)).paths,
  )
  | inr far ↦ ground (
    arith,
    far,
    leaf-merge_visits q l (merge_visit c (p, x)) plain.1 apart.1,
    leaf-merge_visit c p q x plain.0,
    free-merge_visit_apart c p q x plain.0 far,
    path_eq_iff p q,
    comparable_refl p,
  )
]

-- The merged configuration has at each path the leaf of the high one; where that one has nothing
-- and a write is possible, it has the leaf of the low one.
pub leaf-merge :
    (q : ConfigPath) (c low : Config)
    → IsTree low.paths
    → leaf q (merge c low).paths ≡ (if free q c.paths then leaf q low.paths else leaf q c.paths)
unfolding merge
leaf-merge q c low tree =
    rw (for_each-eq low, ← first_leaf-visits q low.paths tree)
      (leaf-merge_visits q (tree_visits low.paths) c (visits-IsPlain low.paths tree)
        (visits-Apart low.paths tree))
