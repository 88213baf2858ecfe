-- ===== src/Replicaset/Application.antt =====
-- Promote, Demote and Expel of a CConfigApplication, cli/replicaset/cconfig.go: the checks against the
-- discovered replicasets, the edit of the local configuration, and the reload.
use tt.Prelude.{
  String, Bool, true, false, not, Option, none, some, List, [], ◌∷◌, ◌++◌, nat_eq, length, ◌==◌,
  if◌then◌else◌,
}
use tt.Cluster.{ClusterConfig}
use tt.Replicaset.{
  LocalFile, not_reached, promote_failed, wait_failed, Outcome, done, failed, CconfigInstance,
  CconfigError, cluster_failed, unexpected_election_mode, not_leader, get_cconfig_instance,
  cconfig_get_election_mode, ElectionMode, election_mode_candidate, failover_election, FileAnswers,
  patch_local, patch_promote, patch_demote, patch_expel, demote_election,
}
use tt.Replicaset.Instances.{Instance, InstanceCtx, Replicaset}
use tt.Replicaset.Eval.{
  EvalError, no_instances, none_connected, connect_failed, eval_failed, Answer, stops, fails,
  eval_any, ReloadError, reload_cconfig,
}

-- The first instance with an alias, with its replicaset.
unfoldable pub find_member : String → List Instance → Option Instance
find_member alias [] = none
find_member alias (i ∷ l) = if i.alias == alias then some i else find_member alias l

unfoldable pub find_instance_by_alias : List Replicaset → String → Option (Replicaset × Instance)
find_instance_by_alias [] alias = none
find_instance_by_alias (r ∷ rs) alias = elim (find_member alias r.instances) [
  | some i ↦ some (r, i)
  | none ↦ find_instance_by_alias rs alias
]

-- The contexts of the instances that are online.
unfoldable pub online : List Instance → List InstanceCtx
online [] = []
online (i ∷ l) = elim (i.ctx) [ some c ↦ c ∷ online l | none ↦ online l ]

-- The aliases of those that are not, without the ones that may be `exempt`.
unfoldable pub unfound : (String → Bool) → List Instance → List String
unfound exempt [] = []
unfound exempt (i ∷ l) =
    let rest = unfound exempt l in
    elim (i.ctx) [ some c ↦ rest | none ↦ if exempt i.alias then rest else i.alias ∷ rest ]

pub data AppError : Type 0 where
  not_discovered no_other_instance : AppError
  not_found not_online : String → AppError
  not_connected : List String → AppError
  not_edited : CconfigError → AppError
  reload_failed : ReloadError → AppError

-- What the method is given: the discovered replicasets, the name, and `Force`.
pub record Request : Type 0 where
  pub discovered : Option (List Replicaset)
  pub inst_name : String
  pub force : Bool

-- What a method leaves: the local configuration file, the instances that the method calls the reload for
-- after the edit, those that box.ctl.promote() was called on, and the errors.
pub record Effect : Type 0 where
  pub file : LocalFile
  pub reloaded : List InstanceCtx
  pub elections : List InstanceCtx
  pub errors : List AppError

abbrev pub refused : LocalFile → AppError → Effect
refused file e = record { file = file; reloaded = []; elections = []; errors = e ∷ [] }

-- The answers of the world: who can be connected to, who reloads, where box.ctl.promote() gives no error
-- and who becomes rw in time, the merged configuration of the cluster, and what the files answer.
pub record World : Type 0 where
  pub connects : InstanceCtx → Bool
  pub reloads : InstanceCtx → Bool
  pub promotes : InstanceCtx → Bool
  pub becomes_rw : InstanceCtx → Bool
  pub cluster : InstanceCtx → Option ClusterConfig
  pub first : FileAnswers
  pub second : FileAnswers
  pub voter_reload_fails : Bool
  pub wait_fails : Bool

-- What `promote`, `demote` and `expel` do: the file afterwards, whether it was published, the error, and
-- the instances that box.ctl.promote() was called on.
pub record Edit : Type 0 where
  pub file : LocalFile
  pub was_published : Bool
  pub error : Option CconfigError
  pub elections : List InstanceCtx

abbrev pub errors_of : Option CconfigError → List AppError
errors_of none = []
errors_of (some e) = not_edited e ∷ []

abbrev pub reload_errors : Option ReloadError → List AppError
reload_errors none = []
reload_errors (some e) = reload_failed e ∷ []

-- The reload, where the configuration was published.
unfoldable pub after_edit : World → List InstanceCtx → Edit → Effect
after_edit w is edit = record {
  file = edit.file;
  reloaded = if edit.was_published then is else [];
  elections = edit.elections;
  errors =
      if edit.was_published
      then errors_of edit.error ++ reload_errors (reload_cconfig w.connects w.reloads is)
      else errors_of edit.error;
}

-- A patch of the file: published if there is no error.
abbrev pub published : LocalFile × Option CconfigError → Edit
published (file, none) = record { file = file; was_published = true; error = none; elections = [] }
published (file, some e) = record {
  file = file;
  was_published = false;
  error = some e;
  elections = [];
}

abbrev pub unpublished : LocalFile → CconfigError → Edit
unpublished file e = record { file = file; was_published = false; error = some e; elections = [] }

abbrev demoted : LocalFile × Bool × Option CconfigError → Edit
demoted (file, was_published, e) = record {
  file = file;
  was_published = was_published;
  error = e;
  elections = [];
}

-- The configured instance of a target.
unfoldable pub configured : World → InstanceCtx → String → Outcome (ClusterConfig × CconfigInstance)
configured w c name = elim (w.cluster c) [
  | none ↦ failed cluster_failed
  | some cluster ↦ elim (get_cconfig_instance cluster name) [
    | failed e ↦ failed e
    | done inst ↦ done (cluster, inst)
  ]
]

abbrev pub is_election : CconfigInstance → Bool
is_election i = elim (i.failover) [ failover_election ↦ true | _ ↦ false ]

abbrev is_candidate : ElectionMode → Bool
is_candidate election_mode_candidate = true
is_candidate _ = false

-- cconfigPromoteElection, which notes that box.ctl.promote() is called before its error, and before waitRW.
unfoldable pub cconfig_promote_election :
    World → InstanceCtx → List InstanceCtx → List InstanceCtx × Answer CconfigError
cconfig_promote_election w c elections = (
  elections ++ c ∷ [],
  if w.promotes c
      then (if w.becomes_rw c then stops else fails wait_failed)
      else fails promote_failed,
)

abbrev pub election_error : Option (EvalError CconfigError) → Option CconfigError
election_error none = none
election_error (some (eval_failed e)) = some e
election_error (some no_instances) = some not_reached
election_error (some none_connected) = some not_reached
election_error (some (connect_failed name)) = some not_reached

-- The election on the instance alone.
unfoldable pub elect : World → InstanceCtx → LocalFile → Edit
elect w c file =
    let (elections, e) = eval_any w.connects (cconfig_promote_election w) (c ∷ []) [] in
    record { file = file; was_published = false; error = election_error e; elections = elections }

-- `promote`
unfoldable pub promote_target : World → String → LocalFile → InstanceCtx → Edit
promote_target w name file c = elim (configured w c name) [
  | failed e ↦ unpublished file e
  | done (cluster, inst) ↦
      if is_election inst
      then elect w c file
      else published (patch_local w.first (patch_promote inst) file)
]

-- `demote`; `leads` is whether the instance is the leader of its replicaset.
unfoldable pub demote_target : World → String → LocalFile → Bool → InstanceCtx → Edit
demote_target w name file leads c = elim (configured w c name) [
  | failed e ↦ unpublished file e
  | done (cluster, inst) ↦ elim (is_election inst) [
    | false ↦ published (patch_local w.first (patch_demote inst) file)
    | true ↦ elim (cconfig_get_election_mode cluster name) [
      | failed e ↦ unpublished file e
      | done mode ↦
          if not (is_candidate mode)
          then unpublished file (unexpected_election_mode mode)
          else if not leads
          then unpublished file not_leader
          else demoted
              (demote_election w.first w.voter_reload_fails w.wait_fails w.second inst file)
    ]
  ]
]

-- `expel`
unfoldable pub expel_target : World → String → LocalFile → InstanceCtx → Edit
expel_target w name file c = elim (configured w c name) [
  | failed e ↦ unpublished file e
  | done (cluster, inst) ↦ published (patch_local w.first (patch_expel inst) file)
]

-- The target of a request: its replicaset, the instance and its context.
unfoldable pub target_of :
    Request → (Replicaset × Instance × InstanceCtx → Effect) → LocalFile → Effect
target_of req edit file = elim (req.discovered) [
  | none ↦ refused file not_discovered
  | some replicasets ↦ elim (find_instance_by_alias replicasets req.inst_name) [
    | none ↦ refused file (not_found req.inst_name)
    | some (r, i) ↦ elim (i.ctx) [
      | none ↦ refused file (not_online req.inst_name)
      | some c ↦ edit (r, i, c)
    ]
  ]
]

-- The edit, unless an instance that is not exempt is offline and `Force` is not set.
unfoldable pub unless_offline :
    World → Request → (String → Bool) → Replicaset → Edit → LocalFile → Effect
unless_offline w req exempt r edited file = elim (unfound exempt r.instances) [
  | [] ↦ after_edit w (online r.instances) edited
  | alias ∷ rest ↦
      if req.force
      then after_edit w (online r.instances) edited
      else refused file (not_connected (alias ∷ rest))
]

unfoldable pub promote_app : World → Request → LocalFile → Effect
promote_app w req file =
    target_of req
      (λ t.
        unless_offline w req (λ alias. false) t.0 (promote_target w req.inst_name file t.2) file)
      file

unfoldable pub demote_app : World → Request → LocalFile → Effect
demote_app w req file =
    target_of req
      (λ t.
        unless_offline w req (λ alias. false) t.0
          (demote_target w req.inst_name file (t.0.leader_uuid == t.1.uuid) t.2) file)
      file

unfoldable pub expel_app : World → Request → LocalFile → Effect
expel_app w req file =
    target_of req
      (λ t.
        if nat_eq (length t.0.instances) 1
        then refused file no_other_instance
        else unless_offline w req (λ alias. alias == req.inst_name) t.0
            (expel_target w req.inst_name file t.2) file)
      file
