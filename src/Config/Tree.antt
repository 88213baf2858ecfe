-- ===== src/Config/Tree.antt =====
-- The tree of a configuration without the loops and errors of config.go: where a path leads, and
-- what a write at a path makes of the tree. `get` and `set` are proved to agree with it.
pub mod Place
use tt.Prelude.{
  String, ◌≡◌, ◌≢◌, refl, Bool, true, false, ◌&&◌, none, some, [], ◌∷◌, arith, ◌==◌, eq_iff,
  if◌then◌else◌,
}
use tt.Config.Data.{
  Value, nil, map_any, Entries, end, entry, Key, Scalar, string, ConfigPath, is_nil, is_key, lookup,
  at, put,
}

-- What stands at a path; nil where the path leads nowhere.
unfoldable pub find : ConfigPath → Value → Value
find [] v = v
find (k ∷ p) (map_any m) = find p (at k m)
find (k ∷ p) _ = nil

-- Every step of the path goes through a map, or through nothing.
unfoldable pub clear : ConfigPath → Value → Bool
clear [] v = true
clear (k ∷ p) nil = true
clear (k ∷ p) (map_any m) = clear p (at k m)
clear (k ∷ p) _ = false

-- The tree with `x` written at the path; a path that is not clear changes nothing.
unfoldable pub place : ConfigPath → Value → Value → Value
place [] x v = x
place (k ∷ p) x nil = map_any (put k (place p x nil) end)
place (k ∷ p) x (map_any m) = map_any (put k (place p x (at k m)) m)
place (k ∷ p) x v = v

-- Nothing stands at the path, and a write there is possible.
unfoldable pub free : ConfigPath → Value → Bool
unfolding find clear
free p v = clear p v && is_nil (find p v)

-- A value at the end of a path: all that is no map[any]any.
abbrev pub leaf_of : Value → Value
leaf_of (map_any m) = nil
leaf_of v = v

-- The value at the end of the path, nil if there is none.
unfoldable pub leaf : ConfigPath → Value → Value
unfolding find
leaf p v = leaf_of (find p v)

abbrev pub path_eq : ConfigPath → ConfigPath → Bool
path_eq [] [] = true
path_eq (j ∷ p) (k ∷ q) = j == k && path_eq p q
path_eq _ _ = false

-- One path is a beginning of the other.
abbrev pub comparable : ConfigPath → ConfigPath → Bool
comparable (j ∷ p) (k ∷ q) = j == k && comparable p q
comparable _ _ = true

pub is_key-eq : (j k : String) (i : Key) → is_key j i ≡ true → is_key k i ≡ (j == k)
is_key-eq j k (some (string s)) h = ground (arith, eq_iff s j, eq_iff s k, eq_iff j k)
is_key-eq j k (some (Scalar.int _ _)) h = ground arith
is_key-eq j k (some (Scalar.uint _ _)) h = ground arith
is_key-eq j k (some (Scalar.float _ _)) h = ground arith
is_key-eq j k (some (Scalar.bool _)) h = ground arith
is_key-eq j k none h = ground arith

pub at-put :
    (j k : String) (v : Value) (m : Entries) → at k (put j v m) ≡ (if j == k then v else at k m)
unfolding at put
at-put j k v end = ground arith
at-put j k v (entry i w m) = ground (arith, is_key-eq j k i, eq_iff j k, at-put j k v m)

pub at-lookup-some : (k : String) (m : Entries) (v : Value) → lookup k m ≡ some v → at k m ≡ v
unfolding at lookup
at-lookup-some k end v h = ground arith
at-lookup-some k (entry j w m) v h = ground (arith, at-lookup-some k m v)

pub at-lookup-none : (k : String) (m : Entries) → lookup k m ≡ none → at k m ≡ nil
unfolding at lookup
at-lookup-none k end h = ground arith
at-lookup-none k (entry j w m) h = ground (arith, at-lookup-none k m)

-- A value that is there is written back with no effect.
pub put-at : (k : String) (m : Entries) (v : Value) → lookup k m ≡ some v → put k v m ≡ m
unfolding put lookup
put-at k end v h = ground arith
put-at k (entry j w m) v h = ground (arith, put-at k m v)

pub at-end : (k : String) → at k end ≡ nil
unfolding at
at-end k = refl

-- What is no map and not nil stands under a key that the map has.
pub lookup_of_at : (k : String) (m : Entries) → at k m ≢ nil → lookup k m ≡ some (at k m)
unfolding at lookup
lookup_of_at k end h = absurd (h refl)
lookup_of_at k (entry j w m) h = ground (arith, lookup_of_at k m)
