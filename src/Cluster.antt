-- ===== src/Cluster.antt =====
-- lib/cluster/cluster.go: the scopes of a cluster configuration and the instances in them.
-- A Go map is a list of its entries in the order of one `range`. A scope that holds instances was
-- decoded from a document that is not null, so its raw configuration is set; that of an instance
-- may be missing.
pub mod Priority
pub mod Search
pub mod Update
use tt.Prelude.{
  String, ◌≡◌, refl, Bool, true, false, Option, none, some, List, [], ◌∷◌, ◌++◌, ◌==◌,
  if◌then◌else◌,
}
use tt.Config.{Config, ConfigError, new_config, set, merge}
use tt.Config.Data.{nil, config, ConfigPath}

abbrev pub NameMap {ℓ} : Type ℓ → Type ℓ
NameMap A = List (String × A)

pub record InstanceConfig : Type 0 where
  pub raw_config : Option Config

pub record ReplicasetConfig : Type 0 where
  pub raw_config : Config
  pub instances : NameMap InstanceConfig

pub record GroupConfig : Type 0 where
  pub raw_config : Config
  pub replicasets : NameMap ReplicasetConfig

pub record ClusterConfig : Type 0 where
  -- the endpoints of config.etcd and of config.storage
  pub etcd_endpoints : List String
  pub storage_endpoints : List String
  pub raw_config : Config
  pub groups : NameMap GroupConfig

-- `groupsLabel`, `replicasetsLabel`, `instancesLabel`.
abbrev pub groups_label : String
groups_label = "groups"

abbrev pub replicasets_label : String
replicasets_label = "replicasets"

abbrev pub instances_label : String
instances_label = "instances"

-- A `range` over a map whose body may return.
unfoldable pub first_some {ℓ κ} : {A : Type ℓ} {B : Type κ} → (A → Option B) → List A → Option B
first_some f [] = none
first_some f (x ∷ xs) = elim (f x) [ some b ↦ some b | none ↦ first_some f xs ]

-- `mergeExclude`: the low configuration is merged without what stands at `exclude_path`.
unfoldable pub merge_exclude : Config → Config → ConfigPath → Config
merge_exclude high low exclude_path =
    let low_copy = merge new_config low in merge high (set exclude_path nil low_copy).0

merge_raw : Config → Option Config → Config
merge_raw c none = c
merge_raw c (some raw) = merge c raw

-- The body of the innermost loop of `findInstance`.
unfoldable pub merge_scopes :
    ClusterConfig → GroupConfig → ReplicasetConfig → InstanceConfig → Config
unfolding merge_raw
merge_scopes cluster group replicaset instance =
    let own = merge_raw new_config instance.raw_config in
    let with_replicaset = merge_exclude own replicaset.raw_config (instances_label ∷ []) in
    let with_group = merge_exclude with_replicaset group.raw_config (replicasets_label ∷ []) in
    merge_exclude with_group cluster.raw_config (groups_label ∷ [])

-- `findInstance`; `none` is the nil *Config.
unfoldable pub find_instance_config : ClusterConfig → String → Option Config
find_instance_config cluster name =
    first_some
      (λ (g : String × GroupConfig).
        first_some
          (λ (r : String × ReplicasetConfig).
            first_some
              (λ (i : String × InstanceConfig).
                if i.0 == name then some (merge_scopes cluster g.1 r.1 i.1) else none)
              r.1.instances)
          g.1.replicasets)
      cluster.groups

instance_names : NameMap InstanceConfig → List String → List String
instance_names [] found = found
instance_names ((iname, i) ∷ rest) found = instance_names rest (found ++ iname ∷ [])

replicaset_names : NameMap ReplicasetConfig → List String → List String
unfolding instance_names
replicaset_names [] found = found
replicaset_names ((rname, r) ∷ rest) found =
    replicaset_names rest (instance_names r.instances found)

group_names : NameMap GroupConfig → List String → List String
unfolding replicaset_names
group_names [] found = found
group_names ((gname, g) ∷ rest) found = group_names rest (replicaset_names g.replicasets found)

-- `Instances`: the names in the order of the loops.
unfoldable pub instances : ClusterConfig → List String
unfolding group_names
instances cluster = group_names cluster.groups []

-- `HasInstance`.
unfoldable pub has_instance : ClusterConfig → String → Bool
has_instance cluster name = elim (find_instance_config cluster name) [
  | some c ↦ true
  | none ↦ false
]

-- `Instantiate`.
unfoldable pub instantiate : ClusterConfig → String → Config
instantiate cluster name = elim (find_instance_config cluster name) [
  | some c ↦ c
  | none ↦ merge_exclude new_config cluster.raw_config (groups_label ∷ [])
]

-- `FindInstance`: the names of the group and of the replicaset.
unfoldable pub find_instance : ClusterConfig → String → Option (String × String)
find_instance cluster name =
    first_some
      (λ (g : String × GroupConfig).
        first_some
          (λ (r : String × ReplicasetConfig).
            first_some
              (λ (i : String × InstanceConfig). if name == i.0 then some (g.0, r.0) else none)
              r.1.instances)
          g.1.replicasets)
      cluster.groups

-- `FindGroupByReplicaset`.
unfoldable pub find_group_by_replicaset : ClusterConfig → String → Option String
find_group_by_replicaset cluster replicaset =
    first_some
      (λ (g : String × GroupConfig).
        first_some (λ (r : String × ReplicasetConfig). if r.0 == replicaset then some g.0 else none)
          g.1.replicasets)
      cluster.groups

pub data ClusterError : Type 0 where
  set_failed : ConfigError → ClusterError
  parse_failed : ClusterError
  no_instance : String → ClusterError

-- The path of an instance in the global configuration.
abbrev pub instance_path : String → String → String → ConfigPath
instance_path group replicaset instance =
    groups_label ∷ group ∷ replicasets_label ∷ replicaset ∷ instances_label ∷ instance ∷ []

-- `yaml` is `yaml.Unmarshal` of the text of a configuration into a ClusterConfig: what it has
-- decoded, and whether it failed.
module _ (yaml : Config → ClusterConfig × Bool) where
  -- `MakeClusterConfig`.
  unfoldable pub make_cluster_config : Config → ClusterConfig × Option ClusterError
  make_cluster_config c =
      let (cluster, failed) = yaml c in (cluster, if failed then some parse_failed else none)

  -- `SetInstanceConfig`.
  unfoldable pub set_instance_config :
      ClusterConfig → String → String → String → Config → ClusterConfig × Option ClusterError
  unfolding make_cluster_config
  set_instance_config cluster group replicaset instance iconfig =
      let (updated, failed) =
        set (instance_path group replicaset instance) (config iconfig.paths)
          (merge new_config cluster.raw_config) in
      elim failed [ some e ↦ (cluster, some (set_failed e)) | none ↦ make_cluster_config updated ]

  -- `ReplaceInstanceConfig`.
  unfoldable pub replace_instance_config :
      ClusterConfig → String → Config → ClusterConfig × Option ClusterError
  unfolding set_instance_config
  replace_instance_config cluster instance iconfig =
      let found : Option (ClusterConfig × Option ClusterError) =
        first_some
          (λ (g : String × GroupConfig).
            first_some
              (λ (r : String × ReplicasetConfig).
                first_some
                  (λ (i : String × InstanceConfig).
                    if instance == i.0
                    then some (set_instance_config cluster g.0 r.0 i.0 iconfig)
                    else none)
                  r.1.instances)
              g.1.replicasets)
          cluster.groups in
      elim found [ some result ↦ result | none ↦ (cluster, some (no_instance instance)) ]
