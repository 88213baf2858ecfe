-- ===== src/Cluster/Update.antt =====
-- `SetInstanceConfig` and `ReplaceInstanceConfig`: what they hand to the YAML decoder.
use tt.Prelude.{String, ◌≡◌, ◌≢◌, ap, ◌∙◌, Bool, true, false, Option, none, arith}
use tt.Config.Data.{Value, nil, config, ConfigPath}
use tt.Config.{Config, ConfigError, ok, new_config, set, get, merge}
use tt.Config.Tree.{find, clear, free, leaf, leaf_of, comparable}
use tt.Config.Tree.Place.{find-place_apart}
use tt.Config.Access.{set-eq-place, set-clear, get-set_self, is_none}
use tt.Config.Visits.{IsTree}
use tt.Config.Merge.{leaf-merge}
use tt.Config.Free.{free-nil, free-merge}
use tt.Cluster.{ClusterConfig, instance_path, make_cluster_config, set_instance_config}

-- The global configuration with the instance's own configuration put in.
pub record IsUpdated (cluster : ClusterConfig) (path : ConfigPath) (iconfig updated : Config)
    : Type 0 where
  pub stored : get path updated ≡ ok iconfig.paths
  pub others :
      (q : ConfigPath)
      → comparable path q ≡ false
      → leaf q updated.paths ≡ leaf q cluster.raw_config.paths

is_none_iff : (o : Option ConfigError) → is_none o ≡ true → o ≡ none
is_none_iff o h = ground arith

clear_of_free : (q : ConfigPath) (v : Value) → free q v ≡ true → clear q v ≡ true
unfolding free
clear_of_free q v h = ground arith

leaf_of_find : (q : ConfigPath) (v w : Value) → find q v ≡ find q w → leaf q v ≡ leaf q w
unfolding leaf
leaf_of_find q v w h = ap leaf_of h

-- A new instance, at a path where the global configuration has nothing and that runs through maps
-- alone: the decoder gets the global configuration with the instance in it.
pub set_instance_config-IsUpdated :
    (yaml : Config → ClusterConfig × Bool) (cluster : ClusterConfig) (g r i : String)
    (iconfig : Config)
    → IsTree cluster.raw_config.paths
    → iconfig.paths ≢ nil
    → free (instance_path g r i) cluster.raw_config.paths ≡ true
    → (updated : Config) × (set_instance_config yaml cluster g r i iconfig
        ≡ make_cluster_config yaml updated)
      × IsUpdated cluster (instance_path g r i) iconfig updated
unfolding set_instance_config
set_instance_config-IsUpdated yaml cluster g r i iconfig tree there is_free = (
  updated,
  rw (done, set_instance_config),
  record {
    stored = get-set_self path (config iconfig.paths) base done there;
    others = λ q apart.
        ap (leaf q) (set-eq-place path (config iconfig.paths) base)
        ∙ leaf_of_find q _ _ (find-place_apart path q iconfig.paths base.paths apart)
        ∙ ground (arith, leaf-merge q new_config cluster.raw_config tree, free-nil q);
  },
)
  where
    path : ConfigPath
    path = instance_path g r i

    base : Config
    base = merge new_config cluster.raw_config

    updated : Config
    updated = (set path (config iconfig.paths) base).0

    done : (set path (config iconfig.paths) base).1 ≡ none
    done = is_none_iff _ (
        set-clear path (config iconfig.paths) base
        ∙ clear_of_free path base.paths
            (free-merge path new_config cluster.raw_config tree is_free (free-nil path)))
