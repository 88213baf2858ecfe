-- ===== src/Collect/Order.antt =====
-- The order in which `GetClusterConfig` and `GetInstanceConfig` merge their sources.
use tt.Prelude.{
  String, ◌≡◌, ◌≢◌, refl, true, false, Option, none, some, List, [], ◌∷◌, ◌++◌, arith, ◌==◌,
}
use tt.Config.{Config, new_config, merge}
use tt.Config.Data.{Value, nil, ConfigPath}
use tt.Config.Tree.{leaf}
use tt.Config.Layers.{Supplies, AreTrees, trees_of, merge_all, merge_all-Supplies}
use tt.Config.Free.{free-nil}
use tt.Cluster.{ClusterConfig, has_instance, instantiate, make_cluster_config}
use tt.Collect.{
  Sources, collected, collect_decorated, main_env, default_env, cluster_of, merge_remote,
  get_cluster_config, get_instance_config,
}

-- The answer of a storage that is asked, as a list of at most one layer.
abbrev pub remote_layers : List String → Option Config → Option (List Config)
remote_layers [] answer = some []
remote_layers (_ ∷ _) (some remote) = some (remote ∷ [])
remote_layers (_ ∷ _) none = none

-- A run of `GetClusterConfig` in which every source answers: the layers by priority are the
-- environment, the file, etcd, the Tarantool storage, and the default environment.
pub record Answers (s : Sources) (path : String) : Type 0 where
  pub path_given : (path == "") ≡ false
  pub env : Config
  pub env_answer : main_env s ≡ collected env
  pub from_file : Config
  pub file_answer : collect_decorated s.yaml (s.file path) ≡ collected from_file
  pub cluster : ClusterConfig
  pub decoded :
      make_cluster_config s.decode_cluster (merge (merge new_config env) from_file)
      ≡ (cluster, none)
  pub etcd : List Config
  pub etcd_answer : remote_layers cluster.etcd_endpoints (s.etcd cluster) ≡ some etcd
  pub storage : List Config
  pub storage_answer : remote_layers cluster.storage_endpoints (s.storage cluster) ≡ some storage
  pub defaults : Config
  pub default_answer : default_env s ≡ collected defaults

abbrev pub layers : {s : Sources} {path : String} → Answers s path → List Config
layers a = a.env ∷ a.from_file ∷ (a.etcd ++ (a.storage ++ a.defaults ∷ []))

merge_all-append :
    (c : Config) (a b : List Config) → merge_all c (a ++ b) ≡ merge_all (merge_all c a) b
merge_all-append c [] b = refl
merge_all-append c (x ∷ a) b = merge_all-append (merge c x) a b

merge_remote-layers :
    (s : Sources) (endpoints : List String) (answer : Option Config) (c : Config) (ls : List Config)
    → remote_layers endpoints answer ≡ some ls
    → merge_remote s endpoints answer c ≡ collected (merge_all c ls)
merge_remote-layers s [] answer c [] h = refl
merge_remote-layers s [] answer c (l ∷ ls) h = absurd (ground (arith, h))
merge_remote-layers s (_ ∷ _) (some remote) c [] h = absurd (ground (arith, h))
merge_remote-layers s (_ ∷ _) (some remote) c (l ∷ []) h = ground (arith, h)
merge_remote-layers s (_ ∷ _) (some remote) c (l ∷ m ∷ ls) h = absurd (ground (arith, h))
merge_remote-layers s (_ ∷ _) none c ls h = absurd (ground (arith, h))

module _ (s : Sources) (path : String) (a : Answers s path) where
  with_file : Config
  with_file = merge (merge new_config a.env) a.from_file

  get_cluster_config-layers :
      get_cluster_config s path
      ≡ cluster_of s (make_cluster_config s.decode_cluster (merge_all new_config (layers a)))
  unfolding get_cluster_config with_file
  get_cluster_config-layers = rw (
    a.path_given,
    a.env_answer,
    a.file_answer,
    a.decoded,
    merge_remote-layers s a.cluster.etcd_endpoints (s.etcd a.cluster) with_file a.etcd
        a.etcd_answer,
    merge_remote-layers s a.cluster.storage_endpoints (s.storage a.cluster)
        (merge_all with_file a.etcd) a.storage a.storage_answer,
    a.default_answer,
    merge_all-append with_file a.etcd (a.storage ++ a.defaults ∷ []),
    merge_all-append (merge_all with_file a.etcd) a.storage (a.defaults ∷ []),
  )

-- Where every source answers with a tree, the configuration that is decoded holds at a path the value of the
-- first source that is not free there: environment, file, etcd, Tarantool storage, defaults.
pub get_cluster_config-Supplies :
    (s : Sources) (path : String) (a : Answers s path) (q : ConfigPath) (v : Value)
    → AreTrees (layers a)
    → v ≢ nil
    → Supplies q v (trees_of (layers a))
    → (c : Config) × (get_cluster_config s path
        ≡ cluster_of s (make_cluster_config s.decode_cluster c))
      × (leaf q c.paths ≡ v)
get_cluster_config-Supplies s path a q v trees there supplied = (
  merge_all new_config (layers a),
  get_cluster_config-layers s path a,
  merge_all-Supplies q v there new_config (layers a) trees (free-nil q) supplied,
)

-- For an instance of the cluster, where the environment can be collected and both layers are trees,
-- `GetInstanceConfig` holds at a path the value of the first that is not free there: the
-- environment, or the merged scopes of the instance.
pub get_instance_config-Supplies :
    (s : Sources) (cluster : ClusterConfig) (instance : String) (env : Config) (q : ConfigPath)
    (v : Value)
    → has_instance cluster instance ≡ true
    → main_env s ≡ collected env
    → AreTrees (env ∷ instantiate cluster instance ∷ [])
    → v ≢ nil
    → Supplies q v (trees_of (env ∷ instantiate cluster instance ∷ []))
    → (c : Config) × (get_instance_config s cluster instance ≡ collected c) × (leaf q c.paths ≡ v)
unfolding get_instance_config
get_instance_config-Supplies s cluster instance env q v found answer trees there supplied = (
  merge_all new_config (env ∷ instantiate cluster instance ∷ []),
  rw (found, answer),
  merge_all-Supplies q v there new_config (env ∷ instantiate cluster instance ∷ []) trees
      (free-nil q) supplied,
)
