-- ===== src/Replicaset/Roles.antt =====
-- cli/replicaset/roles.go and the addition of a role by cli/replicaset/configsource.go.
use tt.Prelude.{
  ℕ, String, ◌==◌, ◌||◌, Bool, true, false, Option, none, some, List, [], ◌∷◌, ◌++◌, if◌then◌else◌,
}
use tt.Config.{Config, not_map, not_exist, Result, ok, err, get, merge}
use tt.Config.Data.{Value, list, scalar, string, Items, no_items, item, ConfigPath}
use tt.Collect.{SourceData}
use tt.Cluster.{ClusterConfig, find_group_by_replicaset, find_instance}
use tt.Replicaset.{
  CconfigError, get_failed, group_not_found, replicaset_not_found, instance_not_found, role_exists,
  roles_malformed, no_path, publish_failed, Outcome, done, failed, ◌>>=◌, set_or_fail,
}
use tt.Replicaset.Source.{PatchTarget, Outside, collect_cconfig, patch_targets, pick_target}

pub record RolesAdd : Type 0 where
  pub inst_name : String
  pub group_name : String
  pub replicaset_name : String
  pub is_global : Bool
  pub role_name : String
  pub force : Bool

unfoldable pub role_items : Items → Outcome (List String)
role_items no_items = done []
role_items (item (scalar (string s)) l) = do roles ← role_items l; done (s ∷ roles)
role_items (item _ l) = failed roles_malformed

-- `parseRoles`
unfoldable pub parse_roles : Value → Outcome (List String)
unfolding role_items
parse_roles (list l) = role_items l
parse_roles _ = failed roles_malformed

-- A []string as a value.
abbrev pub items_of : List String → Items
items_of [] = no_items
items_of (s ∷ l) = item (scalar (string s)) (items_of l)

-- `patchCConfigAddRole`
unfoldable pub patch_add_role : Config → ConfigPath → List String → Outcome Config
patch_add_role c path roles = set_or_fail path (list (items_of roles)) c

abbrev pub with_scope :
    Bool
    → Outcome (List (ConfigPath × ℕ))
    → Outcome (List (ConfigPath × ℕ))
    → Outcome (List (ConfigPath × ℕ))
with_scope asked scope rest =
    if asked then (do first ← scope; more ← rest; done (first ++ more)) else rest

abbrev pub group_found : String → Result Value → Outcome (List (ConfigPath × ℕ))
group_found g (ok v) = done (("groups" ∷ g ∷ "roles" ∷ [], 2) ∷ [])
group_found g (err (not_exist p)) = failed (group_not_found g)
group_found g (err (not_map p)) = failed (get_failed (not_map p))

abbrev pub replicaset_found : String → Option String → Outcome (List (ConfigPath × ℕ))
replicaset_found r none = failed (replicaset_not_found r)
replicaset_found r (some g) = done (("groups" ∷ g ∷ "replicasets" ∷ r ∷ "roles" ∷ [], 4) ∷ [])

abbrev pub instance_found : String → Option (String × String) → Outcome (List (ConfigPath × ℕ))
instance_found i none = failed (instance_not_found i)
instance_found i (some (g, r)) =
    done (("groups" ∷ g ∷ "replicasets" ∷ r ∷ "instances" ∷ i ∷ "roles" ∷ [], 6) ∷ [])

abbrev pub is_given : String → Bool
is_given s = if s == "" then false else true

-- `getCConfigRolesPath`
unfoldable pub roles_paths : ClusterConfig → RolesAdd → Outcome (List (ConfigPath × ℕ))
roles_paths cluster ctx = with_scope ctx.is_global (done (("roles" ∷ [], 0) ∷ [])) (
    with_scope (is_given ctx.group_name)
      (group_found ctx.group_name (get ("groups" ∷ ctx.group_name ∷ []) cluster.raw_config))
      (with_scope (is_given ctx.replicaset_name)
        (replicaset_found ctx.replicaset_name
          (find_group_by_replicaset cluster ctx.replicaset_name))
        (with_scope (is_given ctx.inst_name)
          (instance_found ctx.inst_name (find_instance cluster ctx.inst_name)) (done []))))

abbrev pub roles_at : Result Value → Outcome (List String)
roles_at (ok v) = parse_roles v
roles_at (err (not_exist p)) = done []
roles_at (err (not_map p)) = failed (get_failed (not_map p))

unfoldable pub has_role : String → List String → Bool
has_role role [] = false
has_role role (r ∷ roles) = r == role || has_role role roles

-- The roles at a path with the new one.
unfoldable pub extend_roles : String → List String → Outcome (List String)
extend_roles role existing =
    if has_role role existing then failed (role_exists role) else done (existing ++ role ∷ [])

-- What the rounds have patched: nothing yet, or a configuration and the target of the last round.
abbrev pub Patched : Type 0
Patched = Option (PatchTarget × Config)

abbrev pub merge_patched : Patched → PatchTarget → Config → PatchTarget × Config
merge_patched none target current = (target, current)
merge_patched (some (old, patched)) target current = (target, merge patched current)

module _ {Store : Type 0} (o : Outside Store) (cluster : ClusterConfig)
    (data_list : List SourceData) (ctx : RolesAdd) where
  -- A round of `patchConfigWithRoles`.
  unfoldable pub patch_role : ConfigPath × ℕ → Patched → Outcome (PatchTarget × Config)
  patch_role (path, depth) patched = do
    existing ← roles_at (get path cluster.raw_config)
    roles ← extend_roles ctx.role_name existing
    targets ← patch_targets o data_list path depth
    target ← pick_target o targets ctx.force path
    current ← patch_add_role target.config path roles
    done (merge_patched patched target current)

  -- The loop; without a path Go fails on a nil configuration.
  unfoldable pub patch_roles : List (ConfigPath × ℕ) → Patched → Outcome (PatchTarget × Config)
  patch_roles [] none = failed no_path
  patch_roles [] (some patched) = done patched
  patch_roles (path ∷ paths) patched = do
    next ← patch_role path patched
    patch_roles paths (some next)

module _ {Store : Type 0} (o : Outside Store) where
  -- `AddRole`
  unfoldable pub add_role :
      RolesAdd → Option (List SourceData) → Store → Store × Option CconfigError
  add_role ctx source s =
      let patched : Outcome (PatchTarget × Config) = (do
        from_source ← collect_cconfig o source
        paths ← roles_paths from_source.1 ctx
        patch_roles o from_source.1 from_source.0 ctx paths none) in
      elim patched [
        | failed e ↦ (s, some e)
        | done (target, config) ↦
            let (next, works) = o.publish target.key target.revision (o.print config) s in
            if works then (next, none) else (next, some publish_failed)
      ]
