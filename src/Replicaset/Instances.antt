-- ===== src/Replicaset/Instances.antt =====
-- The replicasets that are discovered: mode.go, master.go, instance.go and replicaset.go of
-- cli/replicaset.
use tt.Prelude.{ℕ, suc, String, Option, List, [], ◌∷◌, map, nat_eq, ltb, if◌then◌else◌}
use tt.Replicaset.{Failover}

pub data Mode : Type 0 where
  mode_unknown mode_read mode_rw : Mode

pub data Master : Type 0 where
  master_unknown master_no master_single master_multi : Master

-- What the commands use of running.InstanceCtx.
pub record InstanceCtx : Type 0 where
  pub app_name : String
  pub inst_name : String
  pub cluster_config_path : String
  pub console_socket : String

-- `ctx` is InstanceCtx where InstanceCtxFound holds.
pub record Instance : Type 0 where
  pub alias : String
  pub uuid : String
  pub uri : String
  pub mode : Mode
  pub ctx : Option InstanceCtx

pub record Replicaset : Type 0 where
  pub uuid : String
  pub leader_uuid : String
  pub alias : String
  pub roles : List String
  pub master : Master
  pub failover : Failover
  pub instances : List Instance

-- The loop of `recalculateMaster`: how many instances are rw, and how many unknown.
unfoldable pub count_modes : List Instance → ℕ × ℕ
count_modes [] = (0, 0)
count_modes (i ∷ l) =
    let (masters, unknown) = count_modes l in
    elim (i.mode) [
      | mode_rw ↦ (suc masters, unknown)
      | mode_unknown ↦ (masters, suc unknown)
      | mode_read ↦ (masters, unknown)
    ]

-- `recalculateMaster`.
unfoldable pub recalculate_master : Replicaset → Replicaset
recalculate_master r =
    let (masters, unknown) = count_modes r.instances in
    record r {
      master =
          if ltb 1 masters
          then master_multi
          else if nat_eq masters 1
          then (if nat_eq unknown 0 then master_single else master_unknown)
          else if nat_eq unknown 0
          then master_no
          else master_unknown;
    }

-- `recalculateMasters`.
unfoldable pub recalculate_masters : List Replicaset → List Replicaset
recalculate_masters l = map recalculate_master l
