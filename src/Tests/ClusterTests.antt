-- ===== src/Tests/ClusterTests.antt =====
-- The theorems about lib/cluster/cluster.go at a small cluster.
use tt.Prelude.{String, ◌≡◌, refl, Bool, false, some, [], ◌∷◌, inl, inr}
use tt.Config.Data.{Value, map_any, end, ConfigPath, lookup, at, put}
use tt.Config.{Config}
use tt.Config.Tree.{free, leaf, place}
use tt.Cluster.{
  InstanceConfig, ReplicasetConfig, GroupConfig, ClusterConfig, first_some, instantiate,
  has_instance, find_instance, instances, instance_path, make_cluster_config, set_instance_config,
}
use tt.Cluster.Search.{Location, locate, elem, is_some, instances-has_instance}
use tt.Cluster.Priority.{instantiate-Supplies}
use tt.Cluster.Update.{IsUpdated, set_instance_config-IsUpdated}
use tt.Tests.ConfigTests.{text, key}

abbrev pub section : String → Value → Value
section k v = map_any (key k v end)

abbrev pub mode : String → Value
mode m = section "database" (section "mode" (text m))

abbrev instance : InstanceConfig
instance = record { raw_config = some (record { paths = section "iproto" (text "127.0.0.1") }) }

abbrev replicaset : ReplicasetConfig
replicaset = record { raw_config = record { paths = mode "rw" }; instances = ("i1", instance) ∷ [] }

abbrev group : GroupConfig
group = record { raw_config = record { paths = mode "ro" }; replicasets = ("r1", replicaset) ∷ [] }

abbrev pub cluster : ClusterConfig
cluster = record {
  etcd_endpoints = [];
  storage_endpoints = [];
  raw_config = record { paths = section "groups" (section "g1" (text "...")) };
  groups = ("g1", group) ∷ [];
}

abbrev location : Location
location = record {
  group_name = "g1";
  group = group;
  replicaset_name = "r1";
  replicaset = replicaset;
  instance_name = "i1";
  instance = instance;
}

abbrev database_mode : ConfigPath
database_mode = "database" ∷ "mode" ∷ []

locate-cluster : locate cluster "i1" ≡ some location
unfolding first_some
locate-cluster = refl

-- The replicaset's mode wins over the group's.
instantiate-Supplies_example : leaf database_mode (instantiate cluster "i1").paths ≡ text "rw"
unfolding leaf free place put at lookup
instantiate-Supplies_example =
    instantiate-Supplies cluster "i1" location database_mode (text "rw") locate-cluster (λ e. cc)
      (
        (tt, refl, tt),
        ((tt, refl, tt), refl, tt),
        ((tt, refl, tt), refl, tt),
        ((tt, refl, tt), refl, tt),
      )
      (inr (refl, inl refl))

instances-has_instance_example :
    (elem "i1" (instances cluster) ≡ has_instance cluster "i1")
    × (is_some (find_instance cluster "i1") ≡ has_instance cluster "i1")
instances-has_instance_example = instances-has_instance cluster "i1"

-- A decoder that reads no group.
abbrev yaml : Config → ClusterConfig × Bool
yaml c =
    (record { etcd_endpoints = []; storage_endpoints = []; raw_config = c; groups = [] }, false)

abbrev replicated : ClusterConfig
replicated = record {
  etcd_endpoints = [];
  storage_endpoints = [];
  raw_config = record { paths = mode "ro" };
  groups = [];
}

abbrev iconfig : Config
iconfig = record { paths = mode "rw" }

set_instance_config-IsUpdated_example :
    (updated : Config) × (set_instance_config yaml replicated "g1" "r1" "i1" iconfig
      ≡ make_cluster_config yaml updated)
    × IsUpdated replicated (instance_path "g1" "r1" "i1") iconfig updated
unfolding free at lookup
set_instance_config-IsUpdated_example =
    set_instance_config-IsUpdated yaml replicated "g1" "r1" "i1" iconfig ((tt, refl, tt), refl, tt)
      (λ e. cc) refl
