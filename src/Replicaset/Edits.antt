-- ===== src/Replicaset/Edits.antt =====
-- What `promote` and `expel` of a CConfigApplication, cli/replicaset/cconfig.go, do with the file: the
-- patch, or nothing and why.
use tt.Prelude.{
  arith, List, [], ◌∷◌, ◌&&◌, String, Bool, true, false, Option, none, some, ◌≡◌, inl, inr, refl,
  sym, subst, Bool-cases,
}
use tt.Config.{Config}
use tt.Cluster.{ClusterConfig}
use tt.Replicaset.{
  LocalFile, not_reached, promote_failed, wait_failed, Outcome, done, failed, CconfigInstance,
  CconfigError, patch_promote, patch_expel,
}
use tt.Replicaset.Instances.{InstanceCtx}
use tt.Replicaset.LocalFiles.{Outcome-cases, IsPatched, patch_local-IsPatched}
use tt.Replicaset.Eval.{
  EvalError, none_connected, eval_failed, eval_any, eval_foreach_alive, eval_foreach_with,
  eval_loop, stopping,
}
use tt.Replicaset.Application.{
  election_error, Edit, elect, cconfig_promote_election, World, published, configured, is_election,
  promote_target, expel_target,
}

-- The edit keeps the file and gives an error.
abbrev pub keeps : LocalFile → List InstanceCtx → CconfigError → Edit
keeps file elections e = record {
  file = file;
  was_published = false;
  error = some e;
  elections = elections;
}

-- How an election ends.
pub data IsElected (w : World) (c : InstanceCtx) (file : LocalFile) : Edit → Type 0 where
  unreached : w.connects c ≡ false → IsElected w c file (keeps file [] not_reached)
  unpromoted :
      w.connects c ≡ true
      → w.promotes c ≡ false
      → IsElected w c file (keeps file (c ∷ []) promote_failed)
  stays_ro :
      w.connects c ≡ true
      → w.promotes c ≡ true
      → w.becomes_rw c ≡ false
      → IsElected w c file (keeps file (c ∷ []) wait_failed)
  wins :
      w.connects c ≡ true
      → w.promotes c ≡ true
      → w.becomes_rw c ≡ true
      → IsElected w c file
          (record { file = file; was_published = false; error = none; elections = c ∷ [] })

elect-IsElected :
    (w : World) (c : InstanceCtx) (file : LocalFile) → IsElected w c file (elect w c file)
unfolding elect eval_any eval_foreach_alive eval_foreach_with eval_loop stopping
    cconfig_promote_election
elect-IsElected w c file =
    let result = eval_any w.connects (cconfig_promote_election w) (c ∷ []) [] in
    let edit_of : List InstanceCtx × Option (EvalError CconfigError) → Edit = λ r. record {
      file = file;
      was_published = false;
      error = election_error r.1;
      elections = r.0;
    } in
    let since : (r : List InstanceCtx × Option (EvalError CconfigError))
        → result ≡ r
        → IsElected w c file (edit_of r)
        → IsElected w c file (edit_of result) =
      λ r e. subst (λ x. IsElected w c file (edit_of x)) (sym e) in
    elim (Bool-cases (w.connects c)) [
      | inr off ↦ since ([], some none_connected) (ground (arith, off)) (IsElected.unreached off)
      | inl on ↦ elim (Bool-cases (w.promotes c)) [
        | inr no_it ↦
            since (c ∷ [], some (eval_failed promote_failed)) (ground (arith, on, no_it))
              (IsElected.unpromoted on no_it)
        | inl yes_it ↦ elim (Bool-cases (w.becomes_rw c)) [
          | inr ro ↦
              since (c ∷ [], some (eval_failed wait_failed)) (ground (arith, on, yes_it, ro))
                (IsElected.stays_ro on yes_it ro)
          | inl is_rw ↦
              since (c ∷ [], none) (ground (arith, on, yes_it, is_rw))
                (IsElected.wins on yes_it is_rw)
        ]
      ]
    ]

-- An edit of the file: the instance is not configured, and nothing happens; or, where an election is held
-- in place of an edit, an election without an effect on the file; or a patch of the configured instance:
-- the file stays as it is, or its publication fails and leaves any file, or it is published.
pub data IsEdit (w : World) (name : String) (c : InstanceCtx)
    (patch : CconfigInstance → Config → Outcome Config) (votes : Bool) (file : LocalFile)
    : Edit → Type 0 where
  unconfigured :
      (e : CconfigError)
      → configured w c name ≡ failed e
      → IsEdit w name c patch votes file (keeps file [] e)
  elected :
      (cluster : ClusterConfig) (inst : CconfigInstance) (edit : Edit)
      → votes ≡ true
      → configured w c name ≡ done (cluster, inst)
      → is_election inst ≡ true
      → IsElected w c file edit
      → IsEdit w name c patch votes file edit
  unpatched :
      (cluster : ClusterConfig) (inst : CconfigInstance) (left : LocalFile) (e : CconfigError)
      → configured w c name ≡ done (cluster, inst)
      → (votes && is_election inst) ≡ false
      → IsPatched w.first (patch inst) file (left, some e)
      → IsEdit w name c patch votes file (keeps left [] e)
  patched :
      (cluster : ClusterConfig) (inst : CconfigInstance) (file' : LocalFile)
      → configured w c name ≡ done (cluster, inst)
      → (votes && is_election inst) ≡ false
      → IsPatched w.first (patch inst) file (file', none)
      → IsEdit w name c patch votes file
          (record { file = file'; was_published = true; error = none; elections = [] })

published-IsEdit :
    (w : World) (name : String) (c : InstanceCtx)
    (patch : CconfigInstance → Config → Outcome Config) (votes : Bool) (file : LocalFile)
    (cluster : ClusterConfig) (inst : CconfigInstance) (result : LocalFile × Option CconfigError)
    → configured w c name ≡ done (cluster, inst)
    → (votes && is_election inst) ≡ false
    → IsPatched w.first (patch inst) file result
    → IsEdit w name c patch votes file (published result)
published-IsEdit w name c patch votes file cluster inst (left, some e) conf other h =
    IsEdit.unpatched cluster inst left e conf other h
published-IsEdit w name c patch votes file cluster inst (file', none) conf other h =
    IsEdit.patched cluster inst file' conf other h

pub promote_target-IsEdit :
    (w : World) (name : String) (file : LocalFile) (c : InstanceCtx)
    → IsEdit w name c patch_promote true file (promote_target w name file c)
unfolding promote_target
promote_target-IsEdit w name file c = elim (Outcome-cases (configured w c name)) [
  | inl (e, q) ↦ rw (promote_target, q) (IsEdit.unconfigured e q)
  | inr ((cluster, inst), q) ↦ elim (Bool-cases (is_election inst)) [
    | inl election ↦
        rw (promote_target, q, election)
          (IsEdit.elected cluster inst _ refl q election (elect-IsElected w c file))
    | inr other ↦
        rw (promote_target, q, other)
          (published-IsEdit w name c patch_promote true file cluster inst _ q other
            (patch_local-IsPatched w.first (patch_promote inst) file))
  ]
]

pub expel_target-IsEdit :
    (w : World) (name : String) (file : LocalFile) (c : InstanceCtx)
    → IsEdit w name c patch_expel false file (expel_target w name file c)
unfolding expel_target
expel_target-IsEdit w name file c = elim (Outcome-cases (configured w c name)) [
  | inl (e, q) ↦ rw (expel_target, q) (IsEdit.unconfigured e q)
  | inr ((cluster, inst), q) ↦
      rw (expel_target, q)
        (published-IsEdit w name c patch_expel false file cluster inst _ q refl
          (patch_local-IsPatched w.first (patch_expel inst) file))
]
