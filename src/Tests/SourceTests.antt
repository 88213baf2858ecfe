-- ===== src/Tests/SourceTests.antt =====
-- The theorems about cli/replicaset/configsource.go at a source with one key.
use tt.Prelude.{none, ℕ, String, ◌≡◌, ◌⊎◌, refl, true, false, Option, some, List, [], ◌∷◌}
use tt.Config.{Config, new_config, ok, get, deep_cast}
use tt.Config.Data.{Value, list, ConfigPath}
use tt.Collect.{SourceData, collect_yaml, collect_merged}
use tt.Cluster.{
  find_group_by_replicaset, ClusterConfig, first_some, instantiate, find_instance,
  find_instance_config, merge_scopes, merge_exclude, make_cluster_config,
}
use tt.Replicaset.{
  Outcome, done, failed, failover_off, failover_manual, get_cconfig_instance, cconfig_get_failover,
  instance_setting, replicaset_setting, patch_promote, patch_demote, set_or_fail,
}
use tt.Replicaset.Source.{
  PatchTarget, Outside, path_depth, depth_from, targets_of, patch_targets, pick_target, nth,
  collect_cconfig, patch_picked, patch_at, patch_found, patched_target, patch_instance_config,
  promote_path, demote_path, promote, demote,
}
use tt.Replicaset.Roles.{
  RolesAdd, items_of, roles_paths, patch_roles, patch_role, patch_add_role, extend_roles, has_role,
  parse_roles, role_items,
}
use tt.Replicaset.Promoted.{Found, Publishes, promote-Publishes, demote-Publishes}
use tt.Tests.ConfigTests.{text, config_runs}
use tt.Tests.ClusterTests.{section}

abbrev file : Value
file = section "groups" (
    section "g" (
      section "replicasets" (
        section "r" (
          section "instances"
            (section "i" (section "iproto" (section "listen" (text "127.0.0.1"))))))))

abbrev small : ClusterConfig
small = record {
  etcd_endpoints = [];
  storage_endpoints = [];
  raw_config = record { paths = file };
  groups =
      (
        "g",
        record {
          raw_config = record { paths = section "app" (text "shop") };
          replicasets =
              (
                "r",
                record {
                  raw_config = record { paths = section "app" (text "shop") };
                  instances =
                      (
                        "i",
                        record {
                          raw_config =
                              some (record { paths = section "iproto" (text "127.0.0.1") });
                        },
                      )
                      ∷ [];
                },
              )
              ∷ [];
        },
      )
      ∷ [];
}

-- Keys are published by writing them down.
abbrev outside : Outside (List (String × ℕ))
outside = record {
  yaml = λ s. some file;
  decode_cluster = λ c. (small, false);
  sort = λ order l. l;
  pick = λ keys force path. some 0;
  print = λ c. "printed";
  publish = λ key revision value s. ((key, revision) ∷ s, true);
}

abbrev source : Option (List SourceData)
source = some (record { source = "/tt/config/all"; value = "groups: ..."; revision = 5 } ∷ [])

unfoldable source_runs : Unit {0}
unfolding config_runs promote demote patch_instance_config patched_target patch_found patch_at
    patch_picked collect_cconfig collect_merged collect_yaml deep_cast make_cluster_config
    get_cconfig_instance cconfig_get_failover find_instance first_some instantiate
    find_instance_config merge_scopes merge_exclude promote_path demote_path patch_targets
    targets_of path_depth depth_from pick_target nth patch_promote patch_demote set_or_fail
source_runs = tt

promote-Publishes_example :
    (f : Found outside "i" source) × (((f.instance_of.failover ≡ failover_off)
        × Publishes outside f.data_list
            (instance_setting f.instance_of ("database" ∷ "mode" ∷ []))
            6
            "rw"
            []
            (promote outside "i" false source []).0)
      ⊎ ((f.instance_of.failover ≡ failover_manual)
          × Publishes outside f.data_list
              (replicaset_setting f.instance_of ("leader" ∷ []))
              4
              f.instance_of.name
              []
              (promote outside "i" false source []).0))
promote-Publishes_example =
    promote-Publishes outside (λ l t h. h) "i" false source [] (unfold source_runs in refl)

demote-Publishes_example :
    (f : Found outside "i" source) × ((f.instance_of.failover ≡ failover_off)
      × Publishes outside f.data_list
          (instance_setting f.instance_of ("database" ∷ "mode" ∷ []))
          6
          "ro"
          []
          (demote outside "i" false source []).0)
demote-Publishes_example =
    demote-Publishes outside (λ l t h. h) "i" false source [] (unfold source_runs in refl)

-- A role for a group and for its replicaset, which has another role already.
abbrev roles_file : Value
roles_file = section "groups" (
    section "g"
      (section "replicasets" (section "r" (section "roles" (list (items_of ("a" ∷ [])))))))

abbrev with_roles : ClusterConfig
with_roles = record small { raw_config = record { paths = roles_file } }

abbrev roles_outside : Outside (List (String × ℕ))
roles_outside = record outside {
  yaml = λ s. some roles_file;
  decode_cluster = λ c. (with_roles, false);
}

abbrev add_b : RolesAdd
add_b = record {
  inst_name = "";
  group_name = "g";
  replicaset_name = "r";
  is_global = false;
  role_name = "b";
  force = false;
}

abbrev replicaset_roles : ConfigPath
replicaset_roles = "groups" ∷ "g" ∷ "replicasets" ∷ "r" ∷ "roles" ∷ []

abbrev group_roles : ConfigPath
group_roles = "groups" ∷ "g" ∷ "roles" ∷ []

abbrev config_of : Outcome (PatchTarget × Config) → Config
config_of (done (target, c)) = c
config_of (failed e) = new_config

add_b_paths_test :
    roles_paths with_roles add_b ≡ done ((group_roles, 2) ∷ (replicaset_roles, 4) ∷ [])
unfolding source_runs roles_paths find_group_by_replicaset
add_b_paths_test = refl

-- The group gets the role, and the replicaset keeps its old roles, since the first patch wins the merge.
add_b_lost_test :
    (get group_roles (
        config_of (
          patch_roles roles_outside with_roles
            (record { source = "/tt/config/all"; value = "..."; revision = 5 } ∷ [])
            add_b
            ((group_roles, 2) ∷ (replicaset_roles, 4) ∷ [])
            none))
      ≡ ok (list (items_of ("b" ∷ []))))
    × (get replicaset_roles (
          config_of (
            patch_roles roles_outside with_roles
              (record { source = "/tt/config/all"; value = "..."; revision = 5 } ∷ [])
              add_b
              ((group_roles, 2) ∷ (replicaset_roles, 4) ∷ [])
              none))
        ≡ ok (list (items_of ("a" ∷ []))))
unfolding source_runs patch_roles patch_role patch_add_role extend_roles has_role parse_roles
    role_items
add_b_lost_test = (refl, refl)
