-- ===== src/Cluster/Priority.antt =====
-- `Instantiate`: which scope the value at a path of an instance's configuration comes from.
use tt.Prelude.{
  String, ◌≡◌, ◌≢◌, refl, ap, sym, subst, ◌∙◌, Bool, true, false, Option, none, some, List, [], ◌∷◌,
  arith, ◌==◌, if◌then◌else◌, inl, inr,
}
use tt.Config.Data.{Value, nil, map_any, end, ConfigPath, is_nil}
use tt.Config.{Config, new_config, set, merge}
use tt.Config.Tree.{find, clear, place, free, leaf, at-put, at-end}
use tt.Config.Tree.Place.{leaf-nil}
use tt.Config.Access.{set-eq-place}
use tt.Config.Visits.{IsTree}
use tt.Config.Merge.{leaf-merge}
use tt.Config.Layers.{Supplies, AreTrees, trees_of, merge_all-Supplies}
use tt.Config.Trees.{merge-IsTree, place-IsTree}
use tt.Config.Free.{free-nil, free-merge}
use tt.Cluster.Search.{Location, locate, find_instance_config-eq-locate}
use tt.Cluster.{
  InstanceConfig, ReplicasetConfig, GroupConfig, ClusterConfig, groups_label, replicasets_label,
  instances_label, merge_exclude, merge_raw, merge_scopes, instantiate,
}

-- A scope's configuration without what stands under a label.
abbrev pub without : String → Config → Value
without label c = place (label ∷ []) nil c.paths

abbrev excluded : String → ConfigPath → Bool
excluded k [] = false
excluded k (j ∷ q) = k == j

leaf-place_nil :
    (k : String) (q : ConfigPath) (v : Value)
    → leaf q (place (k ∷ []) nil v) ≡ (if excluded k q then nil else leaf q v)
unfolding leaf place
leaf-place_nil k [] nil = refl
leaf-place_nil k [] (map_any m) = refl
leaf-place_nil k [] _ = refl
leaf-place_nil k (j ∷ q) nil = ground (arith, at-put k j nil end, at-end j, leaf-nil q)
leaf-place_nil k (j ∷ q) (map_any m) = ground (arith, at-put k j nil m, leaf-nil q)
leaf-place_nil k (j ∷ q) _ = ground arith

root_clear : (k : String) (v : Value) → clear (k ∷ []) v ≡ is_nil (leaf [] v)
unfolding clear leaf
root_clear k nil = refl
root_clear k (map_any m) = refl
root_clear k _ = refl

-- Where the excluded key itself is asked for, only a root that is no map is in the way.
free-place_nil :
    (k j : String) (q : ConfigPath) (v : Value)
    → free (j ∷ q) (place (k ∷ []) nil v) ≡ (if k == j then clear (k ∷ []) v else free (j ∷ q) v)
unfolding free find clear place
free-place_nil k j q nil = ground (arith, at-put k j nil end, at-end j, free-nil q)
free-place_nil k j q (map_any m) = ground (arith, at-put k j nil m, free-nil q)
free-place_nil k j q _ = ground arith

root-place_nil : (k : String) (v : Value) → free [] (place (k ∷ []) nil v) ≡ false
unfolding free find clear place
root-place_nil k nil = refl
root-place_nil k (map_any m) = refl
root-place_nil k _ = refl

-- The copy that `mergeExclude` makes of the low configuration.
abbrev low_copy : String → Config → Config
low_copy label low = (set (label ∷ []) nil (merge new_config low)).0

module _ (label : String) (low : Config) (tree : IsTree low.paths) where
  leaf-copy : (q : ConfigPath) → leaf q (merge new_config low).paths ≡ leaf q low.paths
  leaf-copy q = ground (arith, leaf-merge q new_config low tree, free-nil q)

  leaf-low_copy : (q : ConfigPath) → leaf q (low_copy label low).paths ≡ leaf q (without label low)
  leaf-low_copy q = cc (
    ap (leaf q) (set-eq-place (label ∷ []) nil (merge new_config low)),
    leaf-place_nil label q (merge new_config low).paths,
    leaf-place_nil label q low.paths,
    leaf-copy q,
  )

  free-low_copy :
      (q : ConfigPath)
      → free q (without label low) ≡ true
      → free q (low_copy label low).paths ≡ true
  free-low_copy [] h = ground (arith, h, root-place_nil label low.paths)
  free-low_copy (j ∷ q) h = ground (
    arith,
    h,
    set-eq-place (label ∷ []) nil (merge new_config low),
    free-place_nil label j q low.paths,
    free-place_nil label j q (merge new_config low).paths,
    root_clear label low.paths,
    root_clear label (merge new_config low).paths,
    leaf-copy [],
    free-merge (j ∷ q) new_config low tree,
    free-nil (j ∷ q),
  )

  low_copy-IsTree : IsTree (low_copy label low).paths
  low_copy-IsTree = rw (set-eq-place (label ∷ []) nil (merge new_config low)) (
      place-IsTree (label ∷ []) nil (merge new_config low).paths tt
        (merge-IsTree new_config low tree tt))

abbrev Layer : Type 0
Layer = String × Config

-- The copies that are merged, and what they stand for.
abbrev copies_of : List Layer → List Config
copies_of [] = []
copies_of ((label, low) ∷ rest) = low_copy label low ∷ copies_of rest

abbrev layer_scopes : List Layer → List Value
layer_scopes [] = []
layer_scopes ((label, low) ∷ rest) = without label low ∷ layer_scopes rest

abbrev AreLayerTrees : List Layer → Type 0
AreLayerTrees [] = Unit
AreLayerTrees ((label, low) ∷ rest) = IsTree low.paths × AreLayerTrees rest

copies_of-Supplies :
    (q : ConfigPath) (v : Value) (ls : List Layer)
    → AreLayerTrees ls
    → Supplies q v (layer_scopes ls)
    → Supplies q v (trees_of (copies_of ls))
copies_of-Supplies q v [] t s = s
copies_of-Supplies q v ((label, low) ∷ rest) t (inl e) = inl (leaf-low_copy label low t.0 q ∙ e)
copies_of-Supplies q v ((label, low) ∷ rest) t (inr (passed, s)) =
    inr (free-low_copy label low t.0 q passed, copies_of-Supplies q v rest t.1 s)

copies_of-AreTrees : (ls : List Layer) → AreLayerTrees ls → AreTrees (copies_of ls)
copies_of-AreTrees [] t = tt
copies_of-AreTrees ((label, low) ∷ rest) t =
    (low_copy-IsTree label low t.0, copies_of-AreTrees rest t.1)

abbrev pub own_paths : InstanceConfig → Value
own_paths instance = elim instance.raw_config [ some raw ↦ raw.paths | none ↦ nil ]

-- The scopes of an instance, from the highest priority to the lowest.
abbrev pub scopes : ClusterConfig → GroupConfig → ReplicasetConfig → InstanceConfig → List Value
scopes cluster group replicaset instance =
    own_paths instance
    ∷ without instances_label replicaset.raw_config
    ∷ without replicasets_label group.raw_config
    ∷ without groups_label cluster.raw_config
    ∷ []

abbrev pub AreScopeTrees : Location → ClusterConfig → Type 0
AreScopeTrees l cluster =
    IsTree (own_paths l.instance)
    × IsTree l.replicaset.raw_config.paths
    × IsTree l.group.raw_config.paths
    × IsTree cluster.raw_config.paths

abbrev lower_layers : Location → ClusterConfig → List Layer
lower_layers l cluster =
    (instances_label, l.replicaset.raw_config)
    ∷ (replicasets_label, l.group.raw_config)
    ∷ (groups_label, cluster.raw_config)
    ∷ []

merge_scopes-Supplies :
    (cluster : ClusterConfig) (l : Location) (raw : Option Config) (q : ConfigPath) (v : Value)
    → l.instance.raw_config ≡ raw
    → v ≢ nil
    → AreScopeTrees l cluster
    → Supplies q v (scopes cluster l.group l.replicaset l.instance)
    → leaf q (merge_scopes cluster l.group l.replicaset l.instance).paths ≡ v
unfolding merge_scopes merge_exclude
merge_scopes-Supplies cluster l none q v e there t (inl own) = absurd (
    there (
      sym own
      ∙ ap (λ (r : Option Config). leaf q (elim r [ some c ↦ c.paths | none ↦ nil ])) e
      ∙ leaf-nil q))
merge_scopes-Supplies cluster l none q v e there t (inr (passed, s)) =
    rw (e, merge_raw)
      (merge_all-Supplies q v there new_config (copies_of (lower_layers l cluster))
        (copies_of-AreTrees (lower_layers l cluster) (t.1, (t.2, (t.3, tt)))) (free-nil q)
        (copies_of-Supplies q v (lower_layers l cluster) (t.1, (t.2, (t.3, tt))) s))
merge_scopes-Supplies cluster l (some raw) q v e there t s =
    rw (e, merge_raw)
      (merge_all-Supplies q v there new_config (raw ∷ copies_of (lower_layers l cluster))
        (own_tree, copies_of-AreTrees (lower_layers l cluster) (t.1, (t.2, (t.3, tt)))) (free-nil q)
        (own_first s))
  where
    own : own_paths l.instance ≡ raw.paths
    own = ap (λ (r : Option Config). elim r [ some c ↦ c.paths | none ↦ nil ]) e

    own_tree : IsTree raw.paths
    own_tree = subst IsTree own t.0

    own_first :
        Supplies q v (scopes cluster l.group l.replicaset l.instance)
        → Supplies q v (trees_of (raw ∷ copies_of (lower_layers l cluster)))
    own_first (inl h) = inl (ap (leaf q) (sym own) ∙ h)
    own_first (inr (passed, rest)) = inr (
      ap (free q) (sym own) ∙ passed,
      copies_of-Supplies q v (lower_layers l cluster) (t.1, (t.2, (t.3, tt))) rest,
    )

-- The configuration of an instance holds at a path the value of the first of its scopes (instance,
-- replicaset without "instances", group without "replicasets", global without "groups") that does
-- not leave the path free, if that scope has a value there.
pub instantiate-Supplies :
    (cluster : ClusterConfig) (name : String) (l : Location) (q : ConfigPath) (v : Value)
    → locate cluster name ≡ some l
    → v ≢ nil
    → AreScopeTrees l cluster
    → Supplies q v (scopes cluster l.group l.replicaset l.instance)
    → leaf q (instantiate cluster name).paths ≡ v
unfolding instantiate
instantiate-Supplies cluster name l q v found there t s = ground (
  arith,
  found,
  find_instance_config-eq-locate cluster name,
  merge_scopes-Supplies cluster l l.instance.raw_config q v refl there t s,
)
