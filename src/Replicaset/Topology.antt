-- ===== src/Replicaset/Topology.antt =====
-- The topologies that the instances of an application report, and how they are merged:
-- getCConfigInstanceTopology, mergeCConfigTopologies and updateCConfigInstances of
-- cli/replicaset/cconfig.go.
use tt.Prelude.{
  String, Bool, true, false, Option, none, some, List, [], ◌∷◌, ◌++◌, map, ◌==◌, if◌then◌else◌,
}
use tt.Replicaset.{parse_failover}
use tt.Replicaset.Instances.{
  Instance, InstanceCtx, Mode, mode_unknown, mode_read, mode_rw, Replicaset, master_unknown,
  recalculate_masters,
}

pub record CconfigTopology : Type 0 where
  pub uuid : String
  pub leader_uuid : String
  pub alias : String
  pub failover : String
  pub instances : List Instance
  pub instance_uuid : String
  pub instance_rw : Bool

abbrev own_mode : Bool → Mode
own_mode rw_now = if rw_now then mode_rw else mode_read

-- The mode of the instance that has answered.
unfoldable pub with_own_mode : CconfigTopology → CconfigTopology
with_own_mode t = record t {
  instances =
      map
        (λ (i : Instance).
          if i.uuid == t.instance_uuid then record i { mode = own_mode t.instance_rw } else i)
        t.instances;
}

-- getCConfigInstanceTopology: what Eval answers, each value as mapstructure decodes it.
unfoldable pub get_cconfig_instance_topology :
    Option (List (Option CconfigTopology)) → Option CconfigTopology
get_cconfig_instance_topology (some (some t ∷ [])) = some (with_own_mode t)
get_cconfig_instance_topology _ = none

-- The context of the instance that has answered, in the discovery of an application.
unfoldable pub with_ctx : InstanceCtx → CconfigTopology → CconfigTopology
with_ctx ictx t = record t {
  instances =
      map (λ (i : Instance). if i.uuid == t.instance_uuid then record i { ctx = some ictx } else i)
        t.instances;
}

abbrev pub is_unknown : Mode → Bool
is_unknown mode_unknown = true
is_unknown _ = false

abbrev pub or_else : Option InstanceCtx → Option InstanceCtx → Option InstanceCtx
or_else none b = b
or_else (some a) b = some a

-- What another topology adds to an instance that is known.
unfoldable pub fill : Instance → Instance → Instance
fill i t = record i {
  uri = if i.uri == "" then t.uri else i.uri;
  mode = if is_unknown i.mode then t.mode else i.mode;
  ctx = or_else i.ctx t.ctx;
}

-- The last instance with the UUID is filled.
unfoldable pub update_last : Instance → List Instance → Option (List Instance)
update_last t [] = none
update_last t (i ∷ l) = elim (update_last t l) [
  | some l' ↦ some (i ∷ l')
  | none ↦ if t.uuid == i.uuid then some (fill i t ∷ l) else none
]

unfoldable pub update_instance : Instance → List Instance → List Instance
update_instance t l = elim (update_last t l) [ some l' ↦ l' | none ↦ l ++ (t ∷ []) ]

unfoldable pub update_cconfig_instances : List Instance → List Instance → List Instance
update_cconfig_instances [] l = l
update_cconfig_instances (t ∷ ts) l = update_cconfig_instances ts (update_instance t l)

unfoldable pub new_replicaset : CconfigTopology → Replicaset
new_replicaset t = record {
  uuid = t.uuid;
  leader_uuid = t.leader_uuid;
  alias = t.alias;
  roles = [];
  master = master_unknown;
  failover = parse_failover t.failover;
  instances = t.instances;
}

-- The first replicaset with the UUID of the topology is updated, or a new one comes last.
unfoldable pub merge_topology : CconfigTopology → List Replicaset → List Replicaset
merge_topology t [] = new_replicaset t ∷ []
merge_topology t (r ∷ rs) = elim (t.uuid == r.uuid) [
  | true ↦ record r { instances = update_cconfig_instances t.instances r.instances } ∷ rs
  | false ↦ r ∷ merge_topology t rs
]

unfoldable pub merge_all : List CconfigTopology → List Replicaset → List Replicaset
merge_all [] rs = rs
merge_all (t ∷ ts) rs = merge_all ts (merge_topology t rs)

unfoldable pub unexpelled : List Instance → List Instance
unexpelled [] = []
unexpelled (i ∷ l) = if i.uri == "" then unexpelled l else i ∷ unexpelled l

unfoldable pub clear_expelled : Replicaset → Replicaset
clear_expelled r = record r { instances = unexpelled r.instances }

unfoldable pub merge_cconfig_topologies : List CconfigTopology → List Replicaset
merge_cconfig_topologies ts = recalculate_masters (map clear_expelled (merge_all ts []))
