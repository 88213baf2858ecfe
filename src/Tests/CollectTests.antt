-- ===== src/Tests/CollectTests.antt =====
-- The theorems about the collectors and cli/cluster/cluster.go at small sources.
use Prim.Native.String.{◌++◌ as join_text}
use tt.Prelude.{
  String, ◌≡◌, refl, false, none, some, Option, List, All, [], ◌∷◌, ◌==◌, if◌then◌else◌, inl, inr,
}
use tt.Config.Data.{nil, ConfigPath, lookup, at}
use tt.Config.{Config, new_config, merge, deep_cast}
use tt.Config.Tree.{free, leaf, find, comparable}
use tt.Cluster.{
  has_instance, instantiate, find_instance_config, merge_scopes, merge_exclude, first_some,
  make_cluster_config,
}
use tt.Collect.{
  Sources, collected, join_path, collect_env, collect_paths, main_env, default_env,
  get_cluster_config, get_instance_config, cluster_of, collect_decorated, collect_merged,
  collect_yaml,
}
use tt.Collect.Env.{HasValues, AreApart, collect_env-HasValues}
use tt.Collect.Order.{Answers, get_cluster_config-Supplies, get_instance_config-Supplies}
use tt.Tests.ConfigTests.{text, config_runs}
use tt.Tests.ClusterTests.{section, mode, cluster}

abbrev env_paths : List ConfigPath
env_paths = ("database" ∷ "mode" ∷ []) ∷ ("app" ∷ []) ∷ []

abbrev variables : String → Option String
variables name = if name == "TT_app" then some "shop" else none

abbrev main_name : ConfigPath → String
main_name p = join_text "TT_" (join_path p)

env_paths-AreApart : AreApart env_paths
env_paths-AreApart = ((λ e. cc), (refl, tt), ((λ e. cc), tt, tt))

collect_env-HasValues_example :
    (c : Config) × (collect_env main_name variables env_paths ≡ collected c)
    × HasValues main_name variables env_paths c
    × ((q : ConfigPath) → All (λ r. comparable r q ≡ false) env_paths → find q c.paths ≡ nil)
collect_env-HasValues_example =
    collect_env-HasValues main_name variables env_paths env_paths-AreApart

-- The environment sets the application, the file sets the mode too.
abbrev sources : Sources
sources = record {
  lookup_env = variables;
  to_upper = λ s. s;
  env_paths = env_paths;
  yaml = λ s. if s == "rw" then some (mode "rw") else none;
  decode_cluster = λ c.
      (record { etcd_endpoints = []; storage_endpoints = []; raw_config = c; groups = [] }, false);
  file = λ path.
      if path == "config.yaml"
      then some (record { source = path; value = "rw"; revision = 0 } ∷ [])
      else none;
  etcd = λ c. none;
  storage = λ c. none;
}

abbrev env : Config
env = record { paths = section "app" (text "shop") }

abbrev from_file : Config
from_file = record { paths = mode "rw" }

collect_runs : Unit {0}
unfolding config_runs main_env default_env collect_env collect_paths join_path collect_decorated
    collect_merged collect_yaml deep_cast make_cluster_config
collect_runs = tt

env_answer : main_env sources ≡ collected env
unfolding collect_runs
env_answer = refl

abbrev answers : Answers sources "config.yaml"
answers = record {
  path_given = refl;
  env = env;
  env_answer = env_answer;
  from_file = from_file;
  file_answer = unfold collect_runs in refl;
  cluster = (make_cluster_config sources.decode_cluster (merge (merge new_config env) from_file)).0;
  decoded = unfold collect_runs in refl;
  etcd = [];
  etcd_answer = unfold collect_runs in refl;
  storage = [];
  storage_answer = unfold collect_runs in refl;
  defaults = new_config;
  default_answer = unfold collect_runs in refl;
}

abbrev database_mode : ConfigPath
database_mode = "database" ∷ "mode" ∷ []

get_cluster_config-Supplies_example :
    (c : Config) × (get_cluster_config sources "config.yaml"
      ≡ cluster_of sources (make_cluster_config sources.decode_cluster c))
    × (leaf database_mode c.paths ≡ text "rw")
unfolding leaf free lookup at
get_cluster_config-Supplies_example =
    get_cluster_config-Supplies sources "config.yaml" answers database_mode (text "rw")
      ((tt, refl, tt), (((tt, refl, tt), refl, tt), (tt, tt))) (λ e. cc) (inr (refl, inl refl))

get_instance_config-Supplies_example :
    (c : Config) × (get_instance_config sources cluster "i1" ≡ collected c)
    × (leaf database_mode c.paths ≡ text "rw")
unfolding collect_runs leaf free lookup at has_instance instantiate find_instance_config
    merge_scopes merge_exclude first_some
get_instance_config-Supplies_example =
    get_instance_config-Supplies sources cluster "i1" env database_mode (text "rw") refl env_answer
      ((tt, refl, tt), ((tt, refl, ((tt, refl, tt), refl, tt)), tt)) (λ e. cc)
      (inr (refl, inl refl))
