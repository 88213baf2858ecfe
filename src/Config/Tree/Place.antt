-- ===== src/Config/Tree/Place.antt =====
-- What a write at a path does to every other path of the tree.
use tt.Prelude.{◌≡◌, refl, ap, some, true, false, ◌&&◌, [], ◌∷◌, arith, eq_iff, if◌then◌else◌}
use tt.Config.Data.{Value, nil, map_any, end, ConfigPath, lookup, at}
use tt.Config.Tree.{
  find, clear, place, free, leaf_of, leaf, path_eq, comparable, at-put, at-end, put-at,
  lookup_of_at,
}

pub leaf-nil : (q : ConfigPath) → leaf q nil ≡ nil
unfolding leaf
leaf-nil [] = refl
leaf-nil (k ∷ q) = refl

pub find-nil : (q : ConfigPath) → find q nil ≡ nil
unfolding find
find-nil [] = refl
find-nil (k ∷ q) = refl

pub clear-nil : (q : ConfigPath) → clear q nil ≡ true
unfolding clear
clear-nil [] = refl
clear-nil (k ∷ q) = refl

-- A write on a clear path is read back.
pub find-place_self : (p : ConfigPath) (x v : Value) → clear p v ≡ true → find p (place p x v) ≡ x
unfolding find clear place
find-place_self [] x v h = refl
find-place_self (k ∷ p) x nil h =
    ground (arith, at-put k k (place p x nil) end, eq_iff k k, clear-nil p, find-place_self p x nil)
find-place_self (k ∷ p) x (map_any m) h =
    ground (arith, at-put k k (place p x (at k m)) m, eq_iff k k, find-place_self p x (at k m) h)
find-place_self (k ∷ p) x _ h = ground arith

-- On a path that is not clear a write has no effect.
pub place_blocked : (p : ConfigPath) (x v : Value) → clear p v ≡ false → place p x v ≡ v
unfolding clear place
place_blocked [] x v h = ground arith
place_blocked (k ∷ p) x nil h = ground arith
place_blocked (k ∷ p) x (map_any m) h =
    let there : lookup k m ≡ some (at k m) =
      lookup_of_at k m (λ e. ground (arith, clear-nil p, e)) in
    rw (place_blocked p x (at k m) h) (ap map_any (put-at k m (at k m) there))
place_blocked (k ∷ p) x _ h = refl

-- A write leaves the paths that are not comparable with its own as they are.
pub find-place_apart :
    (p q : ConfigPath) (x v : Value) → comparable p q ≡ false → find q (place p x v) ≡ find q v
unfolding find place
find-place_apart [] q x v h = ground arith
find-place_apart (j ∷ p) [] x v h = ground arith
find-place_apart (j ∷ p) (k ∷ q) x nil h =
    ground (arith, at-put j k (place p x nil) end, at-end k, find-place_apart p q x nil, find-nil q)
find-place_apart (j ∷ p) (k ∷ q) x (map_any m) h =
    ground (arith, at-put j k (place p x (at j m)) m, eq_iff j k, find-place_apart p q x (at j m))
find-place_apart (j ∷ p) (k ∷ q) x _ h = refl

pub clear-place_apart :
    (p q : ConfigPath) (x v : Value) → comparable p q ≡ false → clear q (place p x v) ≡ clear q v
unfolding clear place
clear-place_apart [] q x v h = ground arith
clear-place_apart (j ∷ p) [] x v h = ground arith
clear-place_apart (j ∷ p) (k ∷ q) x nil h =
    ground
      (arith, at-put j k (place p x nil) end, at-end k, clear-place_apart p q x nil, clear-nil q)
clear-place_apart (j ∷ p) (k ∷ q) x (map_any m) h =
    ground (arith, at-put j k (place p x (at j m)) m, eq_iff j k, clear-place_apart p q x (at j m))
clear-place_apart (j ∷ p) (k ∷ q) x _ h = refl

pub free-place_apart :
    (p q : ConfigPath) (x v : Value) → comparable p q ≡ false → free q (place p x v) ≡ free q v
unfolding free
free-place_apart p q x v h = ground (arith, find-place_apart p q x v h, clear-place_apart p q x v h)

-- A value that holds nothing below itself: no map, or an empty one.
abbrev pub IsAtom : Value → Type 0
IsAtom x = (q : ConfigPath) → leaf q x ≡ (if path_eq [] q then leaf_of x else nil)

-- A write of such a value where nothing stands changes the end of its own path alone.
pub leaf-place :
    (p q : ConfigPath) (x v : Value)
    → IsAtom x
    → find p v ≡ nil
    → leaf q (place p x v) ≡ (if path_eq p q && clear p v then leaf_of x else leaf q v)
unfolding leaf find clear place
leaf-place [] q x v atom h = ground (arith, atom q, leaf-nil q)
leaf-place (j ∷ p) [] x nil atom h = refl
leaf-place (j ∷ p) [] x (map_any m) atom h = refl
leaf-place (j ∷ p) [] x _ atom h = refl
leaf-place (j ∷ p) (k ∷ q) x nil atom h = ground (
  arith,
  at-put j k (place p x nil) end,
  at-end k,
  leaf-place p q x nil atom (find-nil p),
  clear-nil p,
  leaf-nil q,
)
leaf-place (j ∷ p) (k ∷ q) x (map_any m) atom h =
    ground (arith, at-put j k (place p x (at j m)) m, eq_iff j k, leaf-place p q x (at j m) atom h)
leaf-place (j ∷ p) (k ∷ q) x _ atom h = ground arith
