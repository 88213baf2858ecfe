-- ===== src/Tests/ReplicasetTests.antt =====
-- The theorems about cli/replicaset at small clusters.
use tt.Prelude.{some, none, ℕ, ◌≡◌, refl, Bool, true, false, List, [], ◌∷◌}
use tt.Config.{Config}
use tt.Config.Data.{Value, end, map_any}
use tt.Replicaset.{
  FileAnswers, demote_voted, patch_local, Failover, failover_off, CconfigInstance, set_or_fail,
  patch_election_mode, demote_election, CachedDiscoverer, use_cache, CacheBehavior, discovery,
}
use tt.Replicaset.Instances.{mode_unknown, mode_rw, Mode, Instance, Replicaset, master_unknown}
use tt.Replicaset.Cache.{after, IsAnswered, after-IsAnswered}
use tt.Tests.ConfigTests.{text, key, config_runs}
use tt.Tests.ClusterTests.{section}

abbrev instance_at : Failover → CconfigInstance
instance_at f = record { failover = f; group_name = "g"; replicaset_name = "r"; name = "i" }

abbrev before : Config
before = record { paths = section "app" (text "shop") }

abbrev scope : Value → Config
scope v = record {
  paths = map_any (
      key "app" (text "shop")
        (key "groups" (section "g" (section "replicasets" (section "r" v))) end));
}

abbrev led : Config
led = scope (section "leader" (text "i"))

abbrev read_only : Config
read_only =
    scope (section "instances" (section "i" (section "database" (section "mode" (text "ro")))))

abbrev electing : Config
electing = scope (
    section "instances"
      (section "i" (section "replication" (section "election_mode" (text "candidate")))))

-- A file that can be read and written.
abbrev works : FileAnswers
works = record { collect_fails = false; publish_fails = none }

elect_runs :
    demote_election works false false works (instance_at failover_off) (some before)
    ≡ (some electing, true, none)
unfolding config_runs demote_election demote_voted patch_local patch_election_mode set_or_fail
elect_runs = refl

abbrev member : Mode → Instance
member m = record { alias = "i"; uuid = "u"; uri = "localhost"; mode = m; ctx = none }

abbrev members : Replicaset
members = record {
  uuid = "u";
  leader_uuid = "";
  alias = "r";
  roles = [];
  master = master_unknown;
  failover = failover_off;
  instances = member mode_rw ∷ member mode_unknown ∷ member mode_rw ∷ [];
}

abbrev new_discoverer : CachedDiscoverer ℕ
new_discoverer = record { cached = false; replicasets = 0 }

abbrev calls : List (CacheBehavior × (ℕ × Bool))
calls = (use_cache, (7, false)) ∷ (use_cache, (8, true)) ∷ []

after-IsAnswered_example : IsAnswered (after calls new_discoverer).replicasets calls
after-IsAnswered_example =
    after-IsAnswered calls new_discoverer refl (unfold after discovery in refl)
