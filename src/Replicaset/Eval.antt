-- ===== src/Replicaset/Eval.antt =====
-- cli/replicaset/eval.go: the evaluation on the instances of an application, one after the other, and
-- what cli/replicaset/cconfig.go does with it: the discovery and the reload.
use tt.Prelude.{
  ℕ, ◌+◌, String, Bool, true, false, Option, none, some, List, [], ◌∷◌, ◌++◌, nat_eq, if◌then◌else◌,
}
use tt.Replicaset.Instances.{InstanceCtx, Replicaset}
use tt.Replicaset.Topology.{
  CconfigTopology, get_cconfig_instance_topology, with_ctx, merge_cconfig_topologies,
}

pub data EvalError {ℓ} (E : Type ℓ) : Type ℓ where
  no_instances none_connected : EvalError E
  connect_failed : String → EvalError E
  eval_failed : E → EvalError E

-- What an evaluation on an instance answers: go on, stop, or an error.
pub data Answer {ℓ} (E : Type ℓ) : Type ℓ where
  goes_on stops : Answer E
  fails : E → Answer E

module _ {S E : Type 0} (connects : InstanceCtx → Bool)
    (eval : InstanceCtx → S → S × Answer E) where
  -- The loop, with `connected` so far; `S` is what the evaluations change.
  unfoldable pub eval_loop : Bool → List InstanceCtx → ℕ → S → S × Option (EvalError E)
  eval_loop skip [] connected s = (s, if nat_eq connected 0 then some none_connected else none)
  eval_loop skip (i ∷ is) connected s = elim (connects i) [
    | false ↦ elim skip [
      | true ↦ eval_loop skip is connected s
      | false ↦ (s, some (connect_failed i.inst_name))
    ]
    | true ↦
        let (s', answer) = eval i s in
        elim answer [
          | fails e ↦ (s', some (eval_failed e))
          | stops ↦ (s', none)
          | goes_on ↦ eval_loop skip is (connected + 1) s'
        ]
  ]

  unfoldable pub eval_foreach_with : Bool → List InstanceCtx → S → S × Option (EvalError E)
  eval_foreach_with skip [] s = (s, some no_instances)
  eval_foreach_with skip (i ∷ is) s = eval_loop skip (i ∷ is) 0 s

  unfoldable pub eval_foreach : List InstanceCtx → S → S × Option (EvalError E)
  eval_foreach = eval_foreach_with false

  unfoldable pub eval_foreach_alive : List InstanceCtx → S → S × Option (EvalError E)
  eval_foreach_alive = eval_foreach_with true

-- An evaluation that stops after the first instance.
unfoldable pub stopping :
    {S E : Type 0} → (InstanceCtx → S → S × Answer E) → InstanceCtx → S → S × Answer E
stopping eval i s =
    let (s', answer) = eval i s in elim answer [ fails e ↦ (s', fails e) | _ ↦ (s', stops) ]

unfoldable pub eval_any :
    {S E : Type 0}
    → (InstanceCtx → Bool)
    → (InstanceCtx → S → S × Answer E)
    → List InstanceCtx
    → S
    → S × Option (EvalError E)
eval_any connects eval = eval_foreach_alive connects (stopping eval)

pub data TopologyError : Type 0 where
  no_topology : TopologyError

-- What the evaluation of the discovery adds to the topologies; `answers` is what Eval gives.
unfoldable pub collect_topology :
    (InstanceCtx → Option (List (Option CconfigTopology)))
    → InstanceCtx
    → List CconfigTopology
    → List CconfigTopology × Answer TopologyError
collect_topology answers i ts = elim (get_cconfig_instance_topology (answers i)) [
  | none ↦ (ts, fails no_topology)
  | some t ↦ (ts ++ (with_ctx i t ∷ []), goes_on)
]

unfoldable pub merged_or_error :
    List CconfigTopology × Option (EvalError TopologyError) → Option (List Replicaset)
merged_or_error (ts, some e) = none
merged_or_error ([], none) = none
merged_or_error (t ∷ ts, none) = some (merge_cconfig_topologies (t ∷ ts))

-- `discovery` of a CConfigApplication; `none` is an error.
unfoldable pub discover_application :
    (InstanceCtx → Bool)
    → (InstanceCtx → Option (List (Option CconfigTopology)))
    → List InstanceCtx
    → Option (List Replicaset)
discover_application connects answers is =
    merged_or_error (eval_foreach_alive connects (collect_topology answers) is [])

-- reloadCConfig: the evaluation notes who fails; `reloads` is whether Eval succeeds.
unfoldable pub note_errored :
    (InstanceCtx → Bool) → InstanceCtx → List String → List String × Answer TopologyError
note_errored reloads i errored =
    (if reloads i then errored else errored ++ (i.inst_name ∷ []), goes_on)

pub data ReloadError : Type 0 where
  not_asked : EvalError TopologyError → ReloadError
  not_reloaded : List String → ReloadError

unfoldable pub reload_error : List String × Option (EvalError TopologyError) → Option ReloadError
reload_error (errored, some e) = some (not_asked e)
reload_error ([], none) = none
reload_error (name ∷ errored, none) = some (not_reloaded (name ∷ errored))

unfoldable pub reload_cconfig :
    (InstanceCtx → Bool) → (InstanceCtx → Bool) → List InstanceCtx → Option ReloadError
reload_cconfig connects reloads is =
    reload_error (eval_foreach connects (note_errored reloads) is [])
