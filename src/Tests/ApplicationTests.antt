-- ===== src/Tests/ApplicationTests.antt =====
-- The theorems about the application commands of cli/replicaset/cconfig.go at a small application.
use tt.Prelude.{
  String, ◌≡◌, refl, Bool, true, false, Option, none, some, List, [], ◌∷◌, ◌==◌, if◌then◌else◌,
}
use tt.Config.{merge_visit, merge_visits}
use tt.Cluster.{
  find_instance, first_some, instantiate, find_instance_config, merge_scopes, merge_exclude,
}
use tt.Scan.{lower_eq}
use tt.Replicaset.{
  LocalFile, patch_promote, get_cconfig_instance, cconfig_get_failover, parse_failover, patch_local,
  set_or_fail,
}
use tt.Replicaset.Instances.{
  InstanceCtx, mode_unknown, Instance, Replicaset, recalculate_masters, recalculate_master,
  count_modes,
}
use tt.Replicaset.Topology.{
  CconfigTopology, merge_cconfig_topologies, with_ctx, get_cconfig_instance_topology, with_own_mode,
  merge_all, merge_topology, new_replicaset, update_cconfig_instances, update_instance, update_last,
  fill, clear_expelled, unexpelled,
}
use tt.Replicaset.Merged.{found}
use tt.Replicaset.Reports.{kept, summary, reports_of}
use tt.Replicaset.Summary.{instances_of}
use tt.Replicaset.Eval.{
  discover_application, eval_foreach_with, eval_loop, eval_foreach, note_errored, reload_cconfig,
  reload_error,
}
use tt.Replicaset.Application.{
  World, Request, promote_app, online, unfound, find_member, find_instance_by_alias, unless_offline,
  target_of, configured, promote_target, after_edit,
}
use tt.Replicaset.Discovered.{topologies_of, is_connected, discover_application-summary}
use tt.Tests.ConfigTests.{text, config_runs}
use tt.Tests.ClusterTests.{section, cluster}

abbrev running : String → InstanceCtx
running name = record {
  app_name = "app";
  inst_name = name;
  cluster_config_path = "config.yaml";
  console_socket = "tarantool.control";
}

abbrev known : String → String → String → Instance
known name uuid uri = record {
  alias = name;
  uuid = uuid;
  uri = uri;
  mode = mode_unknown;
  ctx = none;
}

-- Each knows its own URI only; one that was expelled has none.
abbrev seen_by : String → String → Bool → List Instance → CconfigTopology
seen_by own uuid rw_now is = record {
  uuid = "r";
  leader_uuid = "u1";
  alias = "r1";
  failover = "manual";
  instances = is;
  instance_uuid = uuid;
  instance_rw = rw_now;
}

abbrev answers : InstanceCtx → Option (List (Option CconfigTopology))
answers i =
    if i.inst_name == "i1"
    then some (
        some (
          seen_by "i1" "u1" true
            (known "i1" "u1" "one" ∷ known "i2" "u2" "" ∷ known "i3" "u3" "" ∷ []))
        ∷ [])
    else if i.inst_name == "i2"
    then some
        (some (seen_by "i2" "u2" false (known "i1" "u1" "" ∷ known "i2" "u2" "two" ∷ [])) ∷ [])
    else none

abbrev connects : InstanceCtx → Bool
connects i = if i.inst_name == "i3" then false else true

abbrev application : List InstanceCtx
application = running "i1" ∷ running "i3" ∷ running "i2" ∷ []

abbrev discovered : List Replicaset
discovered = merge_cconfig_topologies (topologies_of connects answers application)

discover_application-summary_example :
    (rs : List Replicaset) × (discover_application connects answers application ≡ some rs)
    × (found "u2" (instances_of "r" rs)
        ≡ kept (summary (reports_of "r" "u2" (topologies_of connects answers application))))
unfolding get_cconfig_instance_topology with_own_mode topologies_of with_ctx is_connected
discover_application-summary_example =
    discover_application-summary connects answers application "r" "u2"
      (λ on. (_, refl), (λ on. cc, (λ on. (_, refl), tt))) refl
      (((refl, (refl, tt)), ((refl, tt), (tt, tt))), (((refl, tt), (tt, tt)), tt))

abbrev world : World
world = record {
  connects = connects;
  reloads = connects;
  cluster = λ c. some cluster;
  first = record { collect_fails = false; publish_fails = none };
  second = record { collect_fails = false; publish_fails = none };
  promotes = λ c. true;
  becomes_rw = λ c. true;
  voter_reload_fails = false;
  wait_fails = false;
}

abbrev request : Request
request = record { discovered = some discovered; inst_name = "i1"; force = false }

abbrev file : LocalFile
file = some (record { paths = section "app" (text "shop") })

-- What a run of a command unfolds.
unfoldable command_runs : Unit {0}
unfolding topologies_of with_ctx get_cconfig_instance_topology with_own_mode
    merge_cconfig_topologies merge_all merge_topology new_replicaset update_cconfig_instances
    update_instance update_last fill clear_expelled unexpelled online unfound find_member
    find_instance_by_alias unless_offline target_of
command_runs = tt

-- The third instance, which is not connected to, has no URI and is no member.
promote_runs :
    ((promote_app world request file).reloaded ≡ running "i1" ∷ running "i2" ∷ [])
    × ((promote_app world request file).errors ≡ [])
unfolding config_runs command_runs promote_app after_edit promote_target configured
    recalculate_masters recalculate_master count_modes get_cconfig_instance find_instance first_some
    cconfig_get_failover instantiate find_instance_config merge_scopes merge_exclude merge_visit
    merge_visits parse_failover patch_local set_or_fail eval_foreach eval_loop note_errored
    reload_cconfig reload_error lower_eq patch_promote eval_foreach_with
promote_runs = (refl, refl)
