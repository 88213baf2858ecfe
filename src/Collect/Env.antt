-- ===== src/Collect/Env.antt =====
-- `EnvCollector.Collect` on paths of which none is a beginning of another.
use tt.Prelude.{
  String, ◌≡◌, ◌≢◌, refl, ap, sym, ◌∙◌, true, false, Option, none, some, List, [], ◌∷◌, arith,
  eq_iff, All, Option-cases, inl, inr,
}
use tt.Config.{Config, ConfigError, new_config, set}
use tt.Config.Data.{string, Value, nil, scalar, ConfigPath}
use tt.Config.Tree.{find, clear, free, comparable}
use tt.Config.Tree.Place.{find-nil, find-place_self, find-place_apart, free-place_apart}
use tt.Config.Access.{written, set-eq-place, set-clear, is_none}
use tt.Config.Free.{free-nil}
use tt.Collect.{collected, collect_paths, collect_env}

comparable_comm : (p q : ConfigPath) → comparable p q ≡ comparable q p
comparable_comm [] [] = refl
comparable_comm [] (k ∷ q) = refl
comparable_comm (j ∷ p) [] = refl
comparable_comm (j ∷ p) (k ∷ q) = ground (arith, eq_iff j k, eq_iff k j, comparable_comm p q)

-- No path of the list is empty, a beginning of another, or listed twice.
abbrev pub AreApart : List ConfigPath → Type 0
AreApart [] = Unit
AreApart (p ∷ rest) = (p ≢ []) × All (λ q. comparable p q ≡ false) rest × AreApart rest

module _ (formatter : ConfigPath → String) (lookup_env : String → Option String) where
  -- The value that the environment has for a path.
  abbrev pub env_value : ConfigPath → Value
  env_value p = elim (lookup_env (formatter p)) [ some v ↦ scalar (string v) | none ↦ nil ]

  abbrev pub HasValues : List ConfigPath → Config → Type 0
  HasValues paths c = All (λ p. find p c.paths ≡ env_value p) paths

  free_after :
      (p : ConfigPath) (x : Value) (c : Config) (rest : List ConfigPath)
      → All (λ q. comparable p q ≡ false) rest
      → All (λ q. free q c.paths ≡ true) rest
      → All (λ q. free q (set p x c).0.paths ≡ true) rest
  free_after p x c [] apart h = tt
  free_after p x c (q ∷ rest) apart h = (
    ap (free q) (set-eq-place p x c) ∙ free-place_apart p q (written p x) c.paths apart.0 ∙ h.0,
    free_after p x c rest apart.1 h.1,
  )

  clear_of_free : (q : ConfigPath) (v : Value) → free q v ≡ true → clear q v ≡ true
  unfolding free
  clear_of_free q v h = ground arith

  nil_of_free : (q : ConfigPath) (v : Value) → free q v ≡ true → find q v ≡ nil
  unfolding free
  nil_of_free q v h = ground arith

  none_of : (o : Option ConfigError) → is_none o ≡ true → o ≡ none
  none_of o h = ground arith

  written_text : (p : ConfigPath) (t : String) → written p (scalar (string t)) ≡ scalar (string t)
  written_text [] t = refl
  written_text (k ∷ p) t = refl

  -- The rest of the loop does not touch a path that is apart from what it sets.
  abbrev Untouched : List ConfigPath → Config → Config → Type 0
  Untouched rest c c' =
      (q : ConfigPath) → All (λ r. comparable r q ≡ false) rest → find q c'.paths ≡ find q c.paths

  symmetric :
      (p : ConfigPath) (rest : List ConfigPath)
      → All (λ q. comparable p q ≡ false) rest
      → All (λ q. comparable q p ≡ false) rest
  symmetric p [] h = tt
  symmetric p (q ∷ rest) h = (comparable_comm q p ∙ h.0, symmetric p rest h.1)

  collect_paths-HasValues :
      (paths : List ConfigPath) (c : Config)
      → AreApart paths
      → All (λ q. free q c.paths ≡ true) paths
      → (c' : Config) × (collect_paths formatter lookup_env paths c ≡ collected c')
        × HasValues paths c'
        × Untouched paths c c'
  unfolding collect_paths
  collect_paths-HasValues [] c apart h = (c, refl, tt, λ q _. refl)
  collect_paths-HasValues (p ∷ rest) c apart h = elim (Option-cases (lookup_env (formatter p))) [
    | inl unset ↦
        let (c', e, values, untouched) = collect_paths-HasValues rest c apart.2 h.1 in
        (
          c',
          ground (arith, unset, e),
          (
            untouched p (symmetric p rest apart.1)
                ∙ nil_of_free p c.paths h.0
                ∙ sym (rw (unset, env_value)),
            values,
          ),
          λ q a. untouched q a.1,
        )
    | inr (value, is_set) ↦
        let x : Value = scalar (string value) in
        let done : (set p x c).1 ≡ none =
          none_of (set p x c).1 (set-clear p x c ∙ clear_of_free p c.paths h.0) in
        let (c', e, values, untouched) =
          collect_paths-HasValues rest (set p x c).0 apart.2 (free_after p x c rest apart.1 h.1) in
        (
          c',
          ground (arith, is_set, done, e),
          (
            untouched p (symmetric p rest apart.1)
                ∙ ap (find p) (set-eq-place p x c)
                ∙ find-place_self p (written p x) c.paths (clear_of_free p c.paths h.0)
                ∙ written_text p value
                ∙ sym (rw (is_set, env_value)),
            values,
          ),
          λ q a.
              untouched q a.1
              ∙ ap (find q) (set-eq-place p x c)
              ∙ find-place_apart p q (written p x) c.paths a.0,
        )
  ]

  free-nil_each : (paths : List ConfigPath) → All (λ q. free q nil ≡ true) paths
  free-nil_each [] = tt
  free-nil_each (p ∷ rest) = (free-nil p, free-nil_each rest)

  -- On paths of which none is empty, a beginning of another, or listed twice, the collector does
  -- not fail, each path holds the value of its variable or
  -- nothing, and what is apart from them all is empty.
  pub collect_env-HasValues :
      (paths : List ConfigPath)
      → AreApart paths
      → (c : Config) × (collect_env formatter lookup_env paths ≡ collected c)
        × HasValues paths c
        × ((q : ConfigPath) → All (λ r. comparable r q ≡ false) paths → find q c.paths ≡ nil)
  unfolding collect_env
  collect_env-HasValues paths apart =
      let (c, e, values, untouched) =
        collect_paths-HasValues paths new_config apart (free-nil_each paths) in
      (c, e, values, λ q a. untouched q a ∙ find-nil q)
