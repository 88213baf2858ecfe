-- ===== src/Replicaset/Promoted.antt =====
-- What `Promote` and `Demote` of cli/replicaset/configsource.go publish.
use tt.Prelude.{
  ℕ, ◌≤◌, String, ◌≡◌, refl, sym, subst, ◌⊎◌, inl, inr, Bool, true, Option, none, List, [], ◌∷◌,
  Has, arith, Bool-cases,
}
use tt.Config.{Config, ok, get}
use tt.Config.Data.{Value, string, scalar, ConfigPath}
use tt.Collect.{SourceData}
use tt.Cluster.{ClusterConfig}
use tt.Replicaset.{
  failover_off, failover_manual, CconfigInstance, Outcome, done, failed, get_cconfig_instance,
  instance_setting, replicaset_setting, patch_promote, patch_demote,
}
use tt.Replicaset.Patches.{Sets, patch_promote-Sets, patch_demote-Sets}
use tt.Replicaset.Source.{
  PatchTarget, greater, take, promote_path, demote_path, Outside, collect_cconfig, patched_target,
  patch_instance_config, promote, demote,
}
use tt.Replicaset.Targets.{ComesFrom, patched_target-Reached, path_depth-there}

-- One key of the source was published under its revision, with the configuration that its datum
-- decodes to after a `Set`, and all else as it was.
pub record Publishes {Store : Type 0} (o : Outside Store) (data_list : List SourceData)
    (path : ConfigPath) (lower : ℕ) (value : String) (s next : Store) : Type 0 where
  pub target : PatchTarget
  pub patched : Config
  pub from : ComesFrom o data_list path lower target
  -- The datum has a beginning of the path, at least to the lower depth.
  pub deep : lower ≤ target.priority
  pub there : (v : Value) × (get (take target.priority path) target.config ≡ ok v)
  pub sets : Sets path (scalar (string value)) target.config patched
  pub published : o.publish target.key target.revision (o.print patched) s ≡ (next, true)

module _ {Store : Type 0} (o : Outside Store) where
  pub record Found (name : String) (source : Option (List SourceData)) : Type 0 where
    pub data_list : List SourceData
    pub cluster : ClusterConfig
    pub instance_of : CconfigInstance
    pub collects : collect_cconfig o source ≡ done (data_list, cluster)
    pub found : get_cconfig_instance cluster name ≡ done instance_of

  module _ (name : String) (force : Bool) (get_path : CconfigInstance → Outcome (ConfigPath × ℕ))
      (patch : CconfigInstance → Config → Outcome Config) (source : Option (List SourceData))
      (s : Store) where
    -- No error means that there was a target, and that it was published.
    published_target :
        (r : Outcome (PatchTarget × Config))
        → patched_target o force get_path patch name source ≡ r
        → (patch_instance_config o name force get_path patch source s).1 ≡ none
        → (target : PatchTarget) × ((patched : Config) × ((patched_target o force get_path patch
                  name source
                ≡ done (target, patched))
              × (o.publish target.key target.revision (o.print patched) s
                  ≡ ((patch_instance_config o name force get_path patch source s).0, true))))
    unfolding patch_instance_config
    published_target (failed e) q h = absurd (ground (arith, q, h))
    published_target (done (target, patched)) q h =
        elim (Bool-cases (o.publish target.key target.revision (o.print patched) s).1) [
          | inl works ↦ (target, (patched, (q, ground (arith, q, h, works))))
          | inr fails ↦ absurd (ground (arith, q, h, fails))
        ]

promote_path_off :
    (i : CconfigInstance) (path : ConfigPath) (lower : ℕ)
    → i.failover ≡ failover_off
    → promote_path i ≡ done (path, lower)
    → (instance_setting i ("database" ∷ "mode" ∷ []) ≡ path) × (6 ≡ lower)
unfolding promote_path
promote_path_off i path lower off h = (ground (arith, off, h), ground (arith, off, h))

promote_path_manual :
    (i : CconfigInstance) (path : ConfigPath) (lower : ℕ)
    → i.failover ≡ failover_manual
    → promote_path i ≡ done (path, lower)
    → (replicaset_setting i ("leader" ∷ []) ≡ path) × (4 ≡ lower)
unfolding promote_path
promote_path_manual i path lower manual h = (ground (arith, manual, h), ground (arith, manual, h))

demote_path_off :
    (i : CconfigInstance) (path : ConfigPath) (lower : ℕ)
    → i.failover ≡ failover_off
    → demote_path i ≡ done (path, lower)
    → (instance_setting i ("database" ∷ "mode" ∷ []) ≡ path) × (6 ≡ lower)
unfolding demote_path
demote_path_off i path lower off h = (ground (arith, off, h), ground (arith, off, h))

is_deep :
    {Store : Type 0} (o : Outside Store) (data_list : List SourceData) (path : ConfigPath)
    (lower : ℕ) (t : PatchTarget)
    → ComesFrom o data_list path lower t
    → (lower ≤ t.priority) × ((v : Value) × (get (take t.priority path) t.config ≡ ok v))
is_deep o data_list path lower t (d, (has, (source, (revision, (decoded, depth))))) =
    path_depth-there t.config path lower t.priority depth

-- A target that was reached over a path, and published.
published_at :
    {Store : Type 0} (o : Outside Store) (data_list : List SourceData) (p path : ConfigPath)
    (n lower : ℕ) (value : String) (s next : Store) (t : PatchTarget) (patched : Config)
    → p ≡ path
    → n ≡ lower
    → ComesFrom o data_list path lower t
    → Sets p (scalar (string value)) t.config patched
    → o.publish t.key t.revision (o.print patched) s ≡ (next, true)
    → Publishes o data_list p n value s next
published_at o data_list p path n lower value s next t patched e f from sets published =
    let moved : ComesFrom o data_list p n t =
      subst (λ (x : ConfigPath). ComesFrom o data_list x n t) (sym e)
        (subst (λ (x : ℕ). ComesFrom o data_list path x t) (sym f) from) in
    let (deep, there) = is_deep o data_list p n t moved in
    record {
      target = t;
      patched = patched;
      from = moved;
      deep = deep;
      there = there;
      sets = sets;
      published = published;
    }

-- Let sorting keep the elements. Where `Promote` returns no error, the collected data form a cluster configuration that has the
-- instance, and one key was published: that of a datum which has the path of the setting but for its last one or two keys at most, with its revision and with its own
-- configuration, in which only the setting is changed: database.mode of the instance to rw where the failover is off, or the leader of the replicaset to the instance
-- where it is manual.
pub promote-Publishes :
    {Store : Type 0} (o : Outside Store)
    (rearranges : (l : List PatchTarget) (t : PatchTarget) → Has t (o.sort greater l) → Has t l)
    (name : String) (force : Bool) (source : Option (List SourceData)) (s : Store)
    → (promote o name force source s).1 ≡ none
    → (f : Found o name source) × (((f.instance_of.failover ≡ failover_off)
          × Publishes o f.data_list
              (instance_setting f.instance_of ("database" ∷ "mode" ∷ []))
              6
              "rw"
              s
              (promote o name force source s).0)
        ⊎ ((f.instance_of.failover ≡ failover_manual)
            × Publishes o f.data_list
                (replicaset_setting f.instance_of ("leader" ∷ []))
                4
                f.instance_of.name
                s
                (promote o name force source s).0))
unfolding promote
promote-Publishes o rearranges name force source s h =
    let (target, (patched, (reached, published))) =
      published_target o name force promote_path patch_promote source s _ refl h in
    let r =
      patched_target-Reached o rearranges name force promote_path patch_promote source target
        patched reached in
    let f : Found o name source = record {
      data_list = r.data_list;
      cluster = r.cluster;
      instance_of = r.instance_of;
      collects = r.collects;
      found = r.found;
    } in
    elim (patch_promote-Sets r.instance_of target.config patched r.patches) [
      | inl (off, sets) ↦
          let (path, lower) = promote_path_off r.instance_of r.path r.lower off r.path_found in
          (
            f,
            inl (
              off,
              published_at o r.data_list _ r.path 6 r.lower _ s _ target patched path lower r.from
                  sets published,
            ),
          )
      | inr (manual, sets) ↦
          let (path, lower) =
            promote_path_manual r.instance_of r.path r.lower manual r.path_found in
          (
            f,
            inr (
              manual,
              published_at o r.data_list _ r.path 4 r.lower _ s _ target patched path lower r.from
                  sets published,
            ),
          )
    ]

-- Let sorting keep the elements. Where `Demote` returns no error, the collected data form a cluster configuration that has the
-- instance, its failover is off, and one key was published: that of a datum which has the path of the instance's database.mode but for its last two keys at most, with its
-- revision and with its own configuration, in which only that setting is changed, to ro.
pub demote-Publishes :
    {Store : Type 0} (o : Outside Store)
    (rearranges : (l : List PatchTarget) (t : PatchTarget) → Has t (o.sort greater l) → Has t l)
    (name : String) (force : Bool) (source : Option (List SourceData)) (s : Store)
    → (demote o name force source s).1 ≡ none
    → (f : Found o name source) × ((f.instance_of.failover ≡ failover_off)
        × Publishes o f.data_list
            (instance_setting f.instance_of ("database" ∷ "mode" ∷ []))
            6
            "ro"
            s
            (demote o name force source s).0)
unfolding demote
demote-Publishes o rearranges name force source s h =
    let (target, (patched, (reached, published))) =
      published_target o name force demote_path patch_demote source s _ refl h in
    let r =
      patched_target-Reached o rearranges name force demote_path patch_demote source target patched
        reached in
    let (off, sets) = patch_demote-Sets r.instance_of target.config patched r.patches in
    let (path, lower) = demote_path_off r.instance_of r.path r.lower off r.path_found in
    (
      record {
        data_list = r.data_list;
        cluster = r.cluster;
        instance_of = r.instance_of;
        collects = r.collects;
        found = r.found;
      },
      (
        off,
        published_at o r.data_list _ r.path 6 r.lower _ s _ target patched path lower r.from sets
            published,
      ),
    )
