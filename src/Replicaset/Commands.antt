-- ===== src/Replicaset/Commands.antt =====
-- What Promote and Expel of a CConfigApplication, cli/replicaset/cconfig.go, do: nothing, next to an
-- error, or an election or a patch of the configuration, with a reload of the instances online.
use tt.Prelude.{
  All, ◌≢◌, ◌++◌, String, Bool, true, false, none, some, List, [], ◌∷◌, ◌≡◌, ◌⊎◌, nat_eq, length,
}
use tt.Config.{Config}
use tt.Replicaset.{LocalFile, Outcome, CconfigInstance}
use tt.Replicaset.Instances.{Instance, InstanceCtx, Replicaset}
use tt.Replicaset.Eval.{reload_cconfig}
use tt.Replicaset.Application.{
  Edit, errors_of, Request, World, Effect, AppError, not_discovered, not_found, not_online,
  not_connected, no_other_instance, find_instance_by_alias, online, unfound, reload_errors,
}
use tt.Replicaset.Edits.{IsEdit}

-- All instances of the replicaset that are not exempt are online, or the request is forced.
abbrev pub IsReady : Request → (String → Bool) → Replicaset → Type 0
IsReady req exempt r =
    All (λ (i : Instance). (i.ctx ≢ none) ⊎ (exempt i.alias ≡ true)) r.instances
    ⊎ (req.force ≡ true)

-- The replicaset has another instance than the one that is expelled.
abbrev pub HasOthers : Bool → Replicaset → Type 0
HasOthers votes r = (votes ≡ true) ⊎ (nat_eq (length r.instances) 1 ≡ false)

-- Why a request is refused, with its error.
pub data IsRefused (w : World) (req : Request) (patch : CconfigInstance → Config → Outcome Config)
    (votes : Bool) (exempt : String → Bool) (file : LocalFile) : AppError → Type 0 where
  undiscovered : req.discovered ≡ none → IsRefused w req patch votes exempt file not_discovered
  unknown :
      (rs : List Replicaset)
      → req.discovered ≡ some rs
      → find_instance_by_alias rs req.inst_name ≡ none
      → IsRefused w req patch votes exempt file (not_found req.inst_name)
  offline :
      (rs : List Replicaset) (r : Replicaset) (i : Instance)
      → req.discovered ≡ some rs
      → find_instance_by_alias rs req.inst_name ≡ some (r, i)
      → i.ctx ≡ none
      → IsRefused w req patch votes exempt file (not_online req.inst_name)
  alone :
      (rs : List Replicaset) (r : Replicaset) (i : Instance)
      → votes ≡ false
      → req.discovered ≡ some rs
      → find_instance_by_alias rs req.inst_name ≡ some (r, i)
      → nat_eq (length r.instances) 1 ≡ true
      → IsRefused w req patch votes exempt file no_other_instance
  unconnected :
      (rs : List Replicaset) (r : Replicaset) (i : Instance) (alias : String) (rest : List String)
      → req.discovered ≡ some rs
      → find_instance_by_alias rs req.inst_name ≡ some (r, i)
      → unfound exempt r.instances ≡ alias ∷ rest
      → req.force ≡ false
      → IsRefused w req patch votes exempt file (not_connected (alias ∷ rest))

-- What an edit leads to: what it leaves, and a reload of who is online in the replicaset if it was
-- published.
abbrev pub reload_after : World → Replicaset → Edit → Effect
reload_after w r edit = elim (edit.was_published) [
  | false ↦ record {
    file = edit.file;
    reloaded = [];
    elections = edit.elections;
    errors = errors_of edit.error;
  }
  | true ↦ record {
    file = edit.file;
    reloaded = online r.instances;
    elections = edit.elections;
    errors =
        errors_of edit.error
        ++ reload_errors (reload_cconfig w.connects w.reloads (online r.instances));
  }
]

-- What a request leads to: nothing but the error of a refusal, or the edit, with a reload if it was
-- published.
pub data IsHandled (w : World) (req : Request) (patch : CconfigInstance → Config → Outcome Config)
    (votes : Bool) (exempt : String → Bool) (file : LocalFile) : Effect → Type 0 where
  nothing :
      (e : AppError)
      → IsRefused w req patch votes exempt file e
      → IsHandled w req patch votes exempt file
          (record { file = file; reloaded = []; elections = []; errors = e ∷ [] })
  edited :
      (rs : List Replicaset) (r : Replicaset) (i : Instance) (c : InstanceCtx) (edit : Edit)
      → req.discovered ≡ some rs
      → find_instance_by_alias rs req.inst_name ≡ some (r, i)
      → i.ctx ≡ some c
      → IsReady req exempt r
      → HasOthers votes r
      → IsEdit w req.inst_name c patch votes file edit
      → IsHandled w req patch votes exempt file (reload_after w r edit)

module _ (w : World) (req : Request) (patch : CconfigInstance → Config → Outcome Config)
    (votes : Bool) (exempt : String → Bool) (file : LocalFile) where
  abbrev Handled : Effect → Type 0
  Handled = IsHandled w req patch votes exempt file
