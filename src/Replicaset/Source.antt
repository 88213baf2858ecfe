-- ===== src/Replicaset/Source.antt =====
-- cli/replicaset/configsource.go: which key of a configuration source is patched, and how.
use Prim.Native.Nat.{Ordering, lt, eq, gt}
use Prim.Native.String.{compare}
use tt.Prelude.{
  ℕ, zero, suc, String, Bool, true, false, Option, none, some, List, [], ◌∷◌, map, length,
  if◌then◌else◌, nat_eq, ltb,
}
use tt.Config.{Config, not_map, not_exist, Result, ok, err, get}
use tt.Config.Data.{Value, ConfigPath}
use tt.Collect.{SourceData, Collected, collected, collect_yaml, collect_merged}
use tt.Cluster.{ClusterConfig, make_cluster_config}
use tt.Replicaset.{
  failover_off, failover_manual, CconfigInstance, CconfigError, unexpected_failover, get_failed,
  decode_failed, collect_failed, cluster_failed, pick_failed, publish_failed, Outcome, done, failed,
  ◌>>=◌, get_cconfig_instance, instance_setting, replicaset_setting, patch_promote, patch_demote,
  patch_expel,
}

-- `path[:i]`
abbrev pub take : ℕ → ConfigPath → ConfigPath
take zero path = []
take (suc n) [] = []
take (suc n) (key ∷ path) = key ∷ take n path

-- What a `Get` says of a path: whether it is there, or the error of a path through something that is no map.
abbrev pub is_there : Result Value → Outcome Bool
is_there (ok v) = done true
is_there (err (not_exist p)) = done false
is_there (err (not_map p)) = failed (get_failed (not_map p))

abbrev pub settle_depth : ℕ → Outcome Bool → Outcome (Option ℕ) → Outcome (Option ℕ)
settle_depth i (failed e) rest = failed e
settle_depth i (done true) rest = done (some i)
settle_depth i (done false) rest = rest

-- The loop of `getCConfigPathDepth`, downwards from `i`; none is `noDepth`.
unfoldable pub depth_from : Config → ConfigPath → ℕ → ℕ → Outcome (Option ℕ)
depth_from c path lower zero =
    if nat_eq lower 0
    then settle_depth 0 (is_there (get (take 0 path) c)) (done none)
    else done none
depth_from c path lower (suc i) =
    let rest = depth_from c path lower i in
    if ltb (suc i) lower
    then done none
    else settle_depth (suc i) (is_there (get (take (suc i) path) c)) rest

-- `getCConfigPathDepth`
unfoldable pub path_depth : Config → ConfigPath → ℕ → Outcome (Option ℕ)
path_depth c path lower = depth_from c path lower (length path)

pub record PatchTarget : Type 0 where
  pub key : String
  pub revision : ℕ
  pub config : Config
  pub priority : ℕ

abbrev pub is_lt : Ordering → Bool
is_lt lt = true
is_lt eq = false
is_lt gt = false

-- `greater`
unfoldable pub greater : PatchTarget → PatchTarget → Bool
greater target other =
    if nat_eq target.priority other.priority
    then is_lt (compare target.key other.key)
    else ltb other.priority target.priority

-- `getCConfigPromotePath`, `getCConfigDemotePath` and `getCConfigExpelPath`, with the depth.
unfoldable pub promote_path : CconfigInstance → Outcome (ConfigPath × ℕ)
promote_path i = elim (i.failover) [
  | failover_off ↦ done (instance_setting i ("database" ∷ "mode" ∷ []), 6)
  | failover_manual ↦ done (replicaset_setting i ("leader" ∷ []), 4)
  | _ ↦ failed (unexpected_failover i.failover)
]

unfoldable pub demote_path : CconfigInstance → Outcome (ConfigPath × ℕ)
demote_path i = elim (i.failover) [
  | failover_off ↦ done (instance_setting i ("database" ∷ "mode" ∷ []), 6)
  | _ ↦ failed (unexpected_failover i.failover)
]

unfoldable pub expel_path : CconfigInstance → Outcome (ConfigPath × ℕ)
expel_path i = done (instance_setting i ("iproto" ∷ "listen" ∷ []), 6)

unfoldable pub nth : ℕ → List PatchTarget → Option PatchTarget
nth n [] = none
nth zero (target ∷ targets) = some target
nth (suc n) (target ∷ targets) = nth n targets

-- What lies outside: the decoders, sort.Slice by an order, the key picker, the text of a configuration and the publisher.
pub record Outside (Store : Type 0) : Type 0 where
  pub yaml : String → Option Value
  pub decode_cluster : Config → ClusterConfig × Bool
  pub sort : (PatchTarget → PatchTarget → Bool) → List PatchTarget → List PatchTarget
  pub pick : List String → Bool → ConfigPath → Option ℕ
  pub print : Config → String
  pub publish : String → ℕ → String → Store → Store × Bool

abbrev pub target_at : SourceData → Config → ℕ → PatchTarget
target_at d c depth = record { key = d.source; revision = d.revision; config = c; priority = depth }

-- The round of a datum, before the later ones.
abbrev pub add_target :
    SourceData
    → Config
    → Outcome (Option ℕ)
    → Outcome (List PatchTarget)
    → Outcome (List PatchTarget)
add_target d c (failed e) more = failed e
add_target d c (done none) more = more
add_target d c (done (some depth)) (failed e) = failed e
add_target d c (done (some depth)) (done targets) = done (target_at d c depth ∷ targets)

module _ {Store : Type 0} (o : Outside Store) where
  -- The loop of `getCConfigPatchTargets`.
  unfoldable pub targets_of : List SourceData → ConfigPath → ℕ → Outcome (List PatchTarget)
  targets_of [] path lower = done []
  targets_of (d ∷ rest) path lower =
      let more = targets_of rest path lower in
      elim (collect_yaml o.yaml d) [
        | Collected.failed e ↦ failed (decode_failed d.source)
        | collected c ↦ add_target d c (path_depth c path lower) more
      ]

  -- `getCConfigPatchTargets`
  unfoldable pub patch_targets : List SourceData → ConfigPath → ℕ → Outcome (List PatchTarget)
  patch_targets data_list path lower = do
    targets ← targets_of data_list path lower
    done (o.sort greater targets)

  -- `pickTarget`; Go panics where the picked index is not there.
  unfoldable pub pick_target : List PatchTarget → Bool → ConfigPath → Outcome PatchTarget
  pick_target targets force path =
      elim (o.pick (map (λ (t : PatchTarget). t.key) targets) force path) [
        | none ↦ failed pick_failed
        | some n ↦ elim (nth n targets) [ none ↦ failed pick_failed | some target ↦ done target ]
      ]

  -- `collectCConfig` on the data of the collector, none where it fails.
  unfoldable pub collect_cconfig :
      Option (List SourceData) → Outcome (List SourceData × ClusterConfig)
  collect_cconfig none = failed collect_failed
  collect_cconfig (some data_list) = elim (collect_merged o.yaml data_list) [
    | Collected.failed e ↦ failed collect_failed
    | collected merged ↦
        let (cluster, error) = make_cluster_config o.decode_cluster merged in
        elim error [ none ↦ done (data_list, cluster) | some e ↦ failed cluster_failed ]
  ]

  module _ (force : Bool) (get_path : CconfigInstance → Outcome (ConfigPath × ℕ))
      (patch : CconfigInstance → Config → Outcome Config) where
    -- `patchInstanceConfig` up to the publication, from its end: the target and its patched configuration.
    unfoldable pub patch_picked : CconfigInstance → PatchTarget → Outcome (PatchTarget × Config)
    patch_picked i target = do patched ← patch i target.config; done (target, patched)

    unfoldable pub patch_at :
        List SourceData → CconfigInstance → ConfigPath × ℕ → Outcome (PatchTarget × Config)
    patch_at data_list i (path, lower) = do
      targets ← patch_targets data_list path lower
      target ← pick_target targets force path
      patch_picked i target

    unfoldable pub patch_found : List SourceData → CconfigInstance → Outcome (PatchTarget × Config)
    patch_found data_list i = do path ← get_path i; patch_at data_list i path

    unfoldable pub patched_target :
        String → Option (List SourceData) → Outcome (PatchTarget × Config)
    patched_target name source = do
      from_source ← collect_cconfig source
      i ← get_cconfig_instance from_source.1 name
      patch_found from_source.0 i

  -- `patchInstanceConfig`
  unfoldable pub patch_instance_config :
      String
      → Bool
      → (CconfigInstance → Outcome (ConfigPath × ℕ))
      → (CconfigInstance → Config → Outcome Config)
      → Option (List SourceData)
      → Store
      → Store × Option CconfigError
  patch_instance_config name force get_path patch source s =
      elim (patched_target force get_path patch name source) [
        | failed e ↦ (s, some e)
        | done (target, patched) ↦
            let (next, works) = o.publish target.key target.revision (o.print patched) s in
            if works then (next, none) else (next, some publish_failed)
      ]

  -- `Promote`, `Demote` and `Expel`
  unfoldable pub promote :
      String → Bool → Option (List SourceData) → Store → Store × Option CconfigError
  promote name force source s = patch_instance_config name force promote_path patch_promote source s

  unfoldable pub demote :
      String → Bool → Option (List SourceData) → Store → Store × Option CconfigError
  demote name force source s = patch_instance_config name force demote_path patch_demote source s

  unfoldable pub expel :
      String → Bool → Option (List SourceData) → Store → Store × Option CconfigError
  expel name force source s = patch_instance_config name force expel_path patch_expel source s
