-- ===== src/Config/Access.antt =====
-- `Config.Get` and `Config.Set`: the loops of config.go against the tree of Config/Tree.antt.
use tt.Prelude.{
  String, ◌≡◌, ◌≢◌, refl, ap, sym, ◌∙◌, Bool, true, false, Option, none, some, [], ◌∷◌, ◌++◌, arith,
  Option-cases, inl, inr, ◌↔◌,
}
use tt.Config.Data.{
  Value, nil, scalar, list, map_any, map_string, config, Entries, end, entry, ConfigPath, lookup,
  at, put,
}
use tt.Config.{
  Config, ConfigError, Result, ok, err, ◌>>=◌, deep_copy_map, deep_copy_entries, create_maps,
  ensure_map, get_map, init, last, stored, set, exists, get,
}
use tt.Config.Tree.{find, clear, place, comparable, at-end, at-lookup-some, at-lookup-none}
use tt.Config.Tree.Place.{find-place_self, find-place_apart, place_blocked}

mutual
  unfolding deep_copy_map

  pub deep_copy_map_lem : (v : Value) → deep_copy_map v ≡ v
  deep_copy_map_lem nil = refl
  deep_copy_map_lem (scalar s) = refl
  deep_copy_map_lem (list l) = refl
  deep_copy_map_lem (map_any m) = ap map_any (deep_copy_entries_lem m)
  deep_copy_map_lem (map_string m) = refl
  deep_copy_map_lem (config v) = refl

  deep_copy_entries_lem : (m : Entries) → deep_copy_entries m ≡ m
  deep_copy_entries_lem end = refl
  deep_copy_entries_lem (entry k v m) = cc (deep_copy_map_lem v, deep_copy_entries_lem m)

abbrev pub is_none : Option ConfigError → Bool
is_none none = true
is_none (some e) = false

module _ (x : Value) where
  create_maps-eq-place :
      (seen : ConfigPath) (key : String) (rest : ConfigPath) (v : Value)
      → (create_maps seen (init key rest) v (put (last key rest) x)).0 ≡ place (key ∷ rest) x v
  unfolding create_maps ensure_map init last place
  create_maps-eq-place seen key [] nil = refl
  create_maps-eq-place seen key [] (map_any m) = refl
  create_maps-eq-place seen key [] _ = refl
  create_maps-eq-place seen key (next ∷ rest) nil = rw (at-end key) (
      ap (λ (w : Value). map_any (put key w end))
        (create_maps-eq-place (seen ++ key ∷ []) next rest nil))
  create_maps-eq-place seen key (next ∷ rest) (map_any m) =
      ap (λ (w : Value). map_any (put key w m))
        (create_maps-eq-place (seen ++ key ∷ []) next rest (at key m))
  create_maps-eq-place seen key (next ∷ rest) _ = refl

  create_maps-clear :
      (seen : ConfigPath) (key : String) (rest : ConfigPath) (v : Value)
      → is_none (create_maps seen (init key rest) v (put (last key rest) x)).1
        ≡ clear (key ∷ rest) v
  unfolding create_maps ensure_map init last clear
  create_maps-clear seen key [] nil = refl
  create_maps-clear seen key [] (map_any m) = refl
  create_maps-clear seen key [] _ = refl
  create_maps-clear seen key (next ∷ rest) nil =
      rw (at-end key) (create_maps-clear (seen ++ key ∷ []) next rest nil)
  create_maps-clear seen key (next ∷ rest) (map_any m) =
      create_maps-clear (seen ++ key ∷ []) next rest (at key m)
  create_maps-clear seen key (next ∷ rest) _ = refl

-- What `Set` writes: under a key, a *Config is written as its tree; at the root nothing is changed.
abbrev pub written : ConfigPath → Value → Value
written [] x = x
written (k ∷ p) (config v) = v
written (k ∷ p) x = x

stored-eq-written : (k : String) (p : ConfigPath) (x : Value) → stored x ≡ written (k ∷ p) x
unfolding stored
stored-eq-written k p (config v) = deep_copy_map_lem v
stored-eq-written k p _ = refl

pub set-eq-place :
    (p : ConfigPath) (x : Value) (c : Config) → (set p x c).0.paths ≡ place p (written p x) c.paths
unfolding set place
set-eq-place [] x c = refl
set-eq-place (k ∷ p) x c =
    rw (← stored-eq-written k p x) (create_maps-eq-place (stored x) [] k p c.paths)

pub set-clear : (p : ConfigPath) (x : Value) (c : Config) → is_none (set p x c).1 ≡ clear p c.paths
unfolding set clear
set-clear [] x c = refl
set-clear (k ∷ p) x c = create_maps-clear (stored x) [] k p c.paths

-- What `Get` returns, nil for an error.
abbrev pub value_of : Result Value → Value
value_of (ok v) = v
value_of (err e) = nil

abbrev entry_of : String → Result Entries → Value
entry_of k (ok m) = at k m
entry_of k (err e) = nil

get_map-eq-find :
    (seen : ConfigPath) (key : String) (rest : ConfigPath) (v : Value)
    → entry_of (last key rest) (get_map seen (init key rest) v) ≡ find (key ∷ rest) v
unfolding get_map init last find
get_map-eq-find seen key [] (map_any m) = refl
get_map-eq-find seen key [] _ = refl
get_map-eq-find seen key (next ∷ rest) (map_any m) = elim (Option-cases (lookup key m)) [
  | inl e ↦ ground (arith, e, at-lookup-none key m e)
  | inr (child, e) ↦
      ground
        (arith, e, at-lookup-some key m child e, get_map-eq-find (seen ++ key ∷ []) next rest child)
]
get_map-eq-find seen key (next ∷ rest) _ = refl

value_of-exists : (p : ConfigPath) (v : Value) → value_of (exists p v) ≡ v
unfolding exists
value_of-exists p nil = refl
value_of-exists p _ = refl

value_of-bind :
    (p : ConfigPath) (k : String) (r : Result Entries)
    → value_of (r >>= λ m. exists p (at k m)) ≡ entry_of k r
value_of-bind p k (ok m) = value_of-exists p (at k m)
value_of-bind p k (err e) = refl

pub get-eq-find : (p : ConfigPath) (c : Config) → value_of (get p c) ≡ find p c.paths
unfolding get find
get-eq-find [] c = value_of-exists [] c.paths
get-eq-find (k ∷ p) c =
    value_of-bind (k ∷ p) (last k p) (get_map [] (init k p) c.paths)
    ∙ get_map-eq-find [] k p c.paths

exists-ne-nil : (p : ConfigPath) (v : Value) → exists p v ≢ ok nil
unfolding exists
exists-ne-nil p nil e = cc
exists-ne-nil p v e = ground arith

bind-ne-nil :
    (p : ConfigPath) (k : String) (r : Result Entries) → (r >>= λ m. exists p (at k m)) ≢ ok nil
bind-ne-nil p k (ok m) h = exists-ne-nil p (at k m) h
bind-ne-nil p k (err e) h = cc

eq-ok_of_value : (r : Result Value) (v : Value) → v ≢ nil → value_of r ≡ v → r ≡ ok v
eq-ok_of_value (ok w) v there e = ap ok e
eq-ok_of_value (err e) v there h = absurd (there (sym h))

-- `Get` never answers with a nil value.
pub get-ne-nil : (p : ConfigPath) (c : Config) → get p c ≢ ok nil
unfolding get
get-ne-nil [] c = exists-ne-nil [] c.paths
get-ne-nil (k ∷ p) c = bind-ne-nil (k ∷ p) (last k p) (get_map [] (init k p) c.paths)

-- `Get` answers with the value that stands at the path, and with an error exactly when none does.
pub get_iff :
    (p : ConfigPath) (c : Config) (v : Value) → v ≢ nil → (get p c ≡ ok v) ↔ (find p c.paths ≡ v)
get_iff p c v there = (
  λ h. ground (arith, get-eq-find p c),
  λ h. eq-ok_of_value (get p c) v there (get-eq-find p c ∙ h),
)

-- What a `Set` without an error wrote is what `Get` returns, if it is not nil.
pub get-set_self :
    (p : ConfigPath) (x : Value) (c : Config)
    → (set p x c).1 ≡ none
    → written p x ≢ nil
    → get p (set p x c).0 ≡ ok (written p x)
get-set_self p x c done there =
    (get_iff p (set p x c).0 (written p x) there).1
      (rw set-eq-place (find-place_self p (written p x) c.paths (ground (arith, set-clear p x c))))

pub value_of-set_apart :
    (p q : ConfigPath) (x : Value) (c : Config)
    → comparable p q ≡ false
    → value_of (get q (set p x c).0) ≡ value_of (get q c)
value_of-set_apart p q x c apart = cc (
  get-eq-find q c,
  get-eq-find q (set p x c).0,
  set-eq-place p x c,
  find-place_apart p q (written p x) c.paths apart,
)

-- At a path that is no beginning of the path of a `Set`, nor has it as a beginning, `Get` returns a value
-- after the `Set` exactly if it returned that value before. The errors of `Get` may differ.
pub get-set_apart :
    (p q : ConfigPath) (x : Value) (c : Config) (v : Value)
    → comparable p q ≡ false
    → (get q (set p x c).0 ≡ ok v) ↔ (get q c ≡ ok v)
get-set_apart p q x c v apart =
    let same = value_of-set_apart p q x c apart in
    let kept : (d : Config)
        → get q d ≡ ok v
        → (d' : Config) → value_of (get q d) ≡ value_of (get q d')
        → get q d' ≡ ok v =
      λ d h d' e.
        eq-ok_of_value (get q d') v (λ n. get-ne-nil q d (h ∙ ap ok n)) (sym e ∙ ap value_of h) in
    (λ h. kept (set p x c).0 h c same, λ h. kept c h (set p x c).0 (sym same))

clear_of_failed : (o : Option ConfigError) (b : Bool) → is_none o ≡ b → o ≢ none → b ≡ false
clear_of_failed none b e h = absurd (h refl)
clear_of_failed (some x) b e h = sym e

-- A `Set` that fails has not changed the configuration.
pub set-failed :
    (p : ConfigPath) (x : Value) (c : Config) → (set p x c).1 ≢ none → (set p x c).0 ≡ c
set-failed p x c failed =
    ap (λ (v : Value). let r : Config = record { paths = v } in r)
      (set-eq-place p x c
        ∙ place_blocked p (written p x) c.paths
            (clear_of_failed (set p x c).1 (clear p c.paths) (set-clear p x c) failed))
