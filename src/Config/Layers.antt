-- ===== src/Config/Layers.antt =====
-- Configurations merged one over another: a path that the higher layers leave free stays free until
-- a layer has a value there.
use tt.Prelude.{◌≡◌, ◌≢◌, ◌⊎◌, sym, ◌∙◌, true, [], ◌∷◌, arith, Bool-cases, inl, inr, List}
use tt.Config.Data.{Value, nil, ConfigPath}
use tt.Config.{Config, merge}
use tt.Config.Tree.{free, leaf}
use tt.Config.Visits.{IsTree}
use tt.Config.Merge.{leaf-merge, leaf_of_free}
use tt.Config.Free.{free-merge}

-- The first of the trees that has something at the path has the value there.
abbrev pub Supplies : ConfigPath → Value → List Value → Type 0
Supplies q v [] = ⊥
Supplies q v (tree ∷ rest) = (leaf q tree ≡ v) ⊎ ((free q tree ≡ true) × Supplies q v rest)

-- Merges of one configuration after another.
abbrev pub merge_all : Config → List Config → Config
merge_all c [] = c
merge_all c (low ∷ rest) = merge_all (merge c low) rest

abbrev pub trees_of : List Config → List Value
trees_of [] = []
trees_of (c ∷ rest) = c.paths ∷ trees_of rest

abbrev pub AreTrees : List Config → Type 0
AreTrees [] = Unit
AreTrees (c ∷ rest) = IsTree c.paths × AreTrees rest

module _ (q : ConfigPath) (v : Value) (there : v ≢ nil) where
  merge_keeps :
      (c low : Config) → IsTree low.paths → leaf q c.paths ≡ v → leaf q (merge c low).paths ≡ v
  merge_keeps c low t h = elim (Bool-cases (free q c.paths)) [
    | inl e ↦ absurd (there (sym h ∙ leaf_of_free q c.paths e))
    | inr e ↦ ground (arith, e, h, leaf-merge q c low t)
  ]

  merge_all-keeps :
      (c : Config) (ls : List Config)
      → AreTrees ls
      → leaf q c.paths ≡ v
      → leaf q (merge_all c ls).paths ≡ v
  merge_all-keeps c [] t h = h
  merge_all-keeps c (low ∷ rest) t h =
      merge_all-keeps (merge c low) rest t.1 (merge_keeps c low t.0 h)

  -- What the first of the layers that is not free at a path has there is in the result.
  pub merge_all-Supplies :
      (c : Config) (ls : List Config)
      → AreTrees ls
      → free q c.paths ≡ true
      → Supplies q v (trees_of ls)
      → leaf q (merge_all c ls).paths ≡ v
  merge_all-Supplies c [] t h s = absurd s
  merge_all-Supplies c (low ∷ rest) t h (inl supplied) =
      merge_all-keeps (merge c low) rest t.1 (ground (arith, h, supplied, leaf-merge q c low t.0))
  merge_all-Supplies c (low ∷ rest) t h (inr (passed, s)) =
      merge_all-Supplies (merge c low) rest t.1 (free-merge q c low t.0 passed h) s
