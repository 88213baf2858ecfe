-- ===== src/Collect.antt =====
-- lib/cluster/env.go, lib/cluster/yaml.go and cli/cluster/cluster.go: where a cluster configuration
-- is collected from, and in which order the sources are merged.
pub mod Env
pub mod Order
use tt.Prelude.{
  ℕ, String, Bool, true, false, Option, none, some, List, [], ◌∷◌, ◌==◌, if◌then◌else◌,
}
use Prim.Native.String.{◌++◌ as join_text}
use tt.Config.{Config, ConfigError, new_config, set, merge, deep_cast}
use tt.Config.Data.{Scalar, string, Value, scalar, ConfigPath}
use tt.Cluster.{ClusterConfig, ClusterError, has_instance, instantiate, make_cluster_config}

-- `Data` of lib/cluster/datacollector.go.
pub record SourceData : Type 0 where
  pub source : String
  pub value : String
  pub revision : ℕ

pub data CollectError : Type 0 where
  path_not_set : CollectError
  env_failed : ConfigError → CollectError
  decode_failed : String → CollectError
  source_failed remote_failed : CollectError
  cluster_failed : ClusterError → CollectError
  instance_not_found : String → CollectError

pub data Collected {ℓ} (A : Type ℓ) : Type ℓ where
  collected : A → Collected A
  failed : CollectError → Collected A

infixl 10 ◌>>=◌
abbrev pub ◌>>=◌ {ℓ κ} : {A : Type ℓ} {B : Type κ} → Collected A → (A → Collected B) → Collected B
collected a >>= f = f a
failed e >>= f = failed e

-- `EnvCollector.Collect`. `lookup_env` is os.LookupEnv, and `paths` is ConfigEnvPaths.
module _ (formatter : ConfigPath → String) (lookup_env : String → Option String) where
  unfoldable pub collect_paths : List ConfigPath → Config → Collected Config
  collect_paths [] c = collected c
  collect_paths (p ∷ rest) c = elim (lookup_env (formatter p)) [
    | none ↦ collect_paths rest c
    | some value ↦
        let (updated, error) = set p (scalar (string value)) c in
        elim error [ some e ↦ failed (env_failed e) | none ↦ collect_paths rest updated ]
  ]

  unfoldable pub collect_env : List ConfigPath → Collected Config
  unfolding collect_paths
  collect_env paths = collect_paths paths new_config

-- `yaml` decodes a text into what yaml.v3 makes of it in an `any`; `none` for an error.
module _ (yaml : String → Option Value) where
  -- `Config.UnmarshalYAML` on the decoded value, and `YamlCollector.Collect`.
  unfoldable pub collect_yaml : SourceData → Collected Config
  collect_yaml d = elim (yaml d.value) [
    | some raw_paths ↦ collected (record { paths = deep_cast raw_paths })
    | none ↦ failed (decode_failed d.source)
  ]

  merge_data : List SourceData → Config → Collected Config
  unfolding collect_yaml
  merge_data [] c = collected c
  merge_data (d ∷ rest) c = elim (collect_yaml d) [
    | collected config ↦ merge_data rest (merge c config)
    | failed e ↦ failed e
  ]

  -- `YamlDataMergeCollector.Collect`.
  unfoldable pub collect_merged : List SourceData → Collected Config
  unfolding merge_data
  collect_merged data_list = merge_data data_list new_config

  -- `YamlCollectorDecorator.Collect`; `none` is an error of the collector under it.
  unfoldable pub collect_decorated : Option (List SourceData) → Collected Config
  unfolding collect_merged
  collect_decorated (some raw) = collect_merged raw
  collect_decorated none = failed source_failed

-- strings.Join(path, "_").
unfoldable pub join_path : ConfigPath → String
join_path [] = ""
join_path (k ∷ []) = k
join_path (k ∷ next ∷ rest) = join_text k (join_text "_" (join_path (next ∷ rest)))

-- What lies outside: the environment, the file, the remote storages and the decoders.
pub record Sources : Type 0 where
  pub lookup_env : String → Option String
  -- strings.ToUpper
  pub to_upper : String → String
  -- ConfigEnvPaths
  pub env_paths : List ConfigPath
  pub yaml : String → Option Value
  pub decode_cluster : Config → ClusterConfig × Bool
  -- the data of the collector that `NewFile` makes, or none for an error
  pub file : String → Option (List SourceData)
  -- `collectEtcdConfig` and `collectTarantoolConfig`, which speak to network services
  pub etcd : ClusterConfig → Option Config
  pub storage : ClusterConfig → Option Config

module _ (s : Sources) where
  -- The formatters of `mainEnvCollector` and `defaultEnvCollector`.
  unfoldable pub main_env : Collected Config
  unfolding join_path
  main_env =
      collect_env (λ path. join_text "TT_" (s.to_upper (join_path path))) s.lookup_env s.env_paths

  unfoldable pub default_env : Collected Config
  unfolding join_path
  default_env =
      collect_env (λ path. join_text "TT_" (join_text (s.to_upper (join_path path)) "_DEFAULT"))
        s.lookup_env s.env_paths

  abbrev pub cluster_of : ClusterConfig × Option ClusterError → Collected ClusterConfig
  cluster_of (cluster, none) = collected cluster
  cluster_of (cluster, some e) = failed (cluster_failed e)

  -- A remote storage is asked only if it has endpoints.
  abbrev merge_remote : List String → Option Config → Config → Collected Config
  merge_remote [] answer c = collected c
  merge_remote (_ ∷ _) (some remote) c = collected (merge c remote)
  merge_remote (_ ∷ _) none c = failed remote_failed

  -- `GetClusterConfig`.
  unfoldable pub get_cluster_config : String → Collected ClusterConfig
  get_cluster_config path = if path == "" then failed path_not_set else do
    env ← main_env
    let with_env = merge new_config env
    from_file ← collect_decorated s.yaml (s.file path)
    let with_file = merge with_env from_file
    cluster ← cluster_of (make_cluster_config s.decode_cluster with_file)
    with_etcd ← merge_remote cluster.etcd_endpoints (s.etcd cluster) with_file
    with_storage ← merge_remote cluster.storage_endpoints (s.storage cluster) with_etcd
    defaults ← default_env
    cluster_of (make_cluster_config s.decode_cluster (merge with_storage defaults))

  -- `GetInstanceConfig`, up to the decoding that `MakeInstanceConfig` does.
  unfoldable pub get_instance_config : ClusterConfig → String → Collected Config
  get_instance_config cluster instance =
      if has_instance cluster instance
      then (do
        env ← main_env
        let iconfig = merge new_config env
        collected (merge iconfig (instantiate cluster instance)))
      else failed (instance_not_found instance)
