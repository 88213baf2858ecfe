-- ===== src/Replicaset/Targets.antt =====
-- Which target a patch of cli/replicaset/configsource.go reaches.
use tt.Prelude.{
  ℕ, zero, suc, ◌≤◌, String, ◌≡◌, refl, sym, ap, subst, ◌∙◌, ◌⊎◌, inl, inr, Bool, Option, none,
  some, List, [], ◌∷◌, map, length, Has, nat_eq, nat_eq_iff, ltb, arith, Bool-cases,
}
use tt.Config.{Config, Result, ok, err, not_map, not_exist, get}
use tt.Config.Data.{Value, ConfigPath}
use tt.Collect.{SourceData, Collected, collected, collect_yaml}
use tt.Cluster.{ClusterConfig}
use tt.Replicaset.{CconfigInstance, Outcome, done, failed, ◌>>=◌, get_cconfig_instance}
use tt.Replicaset.Source.{
  PatchTarget, target_at, add_target, greater, take, is_there, settle_depth, depth_from, path_depth,
  nth, Outside, targets_of, patch_targets, pick_target, collect_cconfig, patched_target,
  patch_picked, patch_at, patch_found,
}

bind_done {ℓ κ} :
    {A : Type ℓ} {B : Type κ} (m : Outcome A) (f : A → Outcome B) (b : B)
    → (m >>= f) ≡ done b
    → (a : A) × ((m ≡ done a) × (f a ≡ done b))
bind_done (done a) f b h = (a, (refl, h))
bind_done (failed e) f b h = absurd (ground (arith, h))

nth-Has : (n : ℕ) (l : List PatchTarget) (t : PatchTarget) → nth n l ≡ some t → Has t l
unfolding nth
nth-Has zero [] t h = absurd (ground (arith, h))
nth-Has (suc n) [] t h = absurd (ground (arith, h))
nth-Has zero (x ∷ l) t h = inl (ground (arith, h))
nth-Has (suc n) (x ∷ l) t h = inr (nth-Has n l t h)

added :
    (d : SourceData) (c : Config) (depth : Outcome (Option ℕ)) (more : Outcome (List PatchTarget))
    (targets : List PatchTarget) (t : PatchTarget)
    → add_target d c depth more ≡ done targets
    → Has t targets
    → ((n : ℕ) × ((depth ≡ done (some n)) × (t ≡ target_at d c n)))
      ⊎ ((ts : List PatchTarget) × ((more ≡ done ts) × Has t ts))
added d c (failed e) more targets t h has = absurd (ground (arith, h))
added d c (done none) more targets t h has = inr (targets, (h, has))
added d c (done (some n)) (failed e) targets t h has = absurd (ground (arith, h))
added d c (done (some n)) (done ts) [] t h has = absurd has
added d c (done (some n)) (done ts) (x ∷ xs) t h (inl e) = inl (n, (refl, e ∙ ground (arith, h)))
added d c (done (some n)) (done ts) (x ∷ xs) t h (inr has) = inr (xs, (ground (arith, h), has))

module _ {Store : Type 0} (o : Outside Store) where
  -- A target comes from a datum that has the path, to its priority as the depth.
  abbrev pub ComesFrom : List SourceData → ConfigPath → ℕ → PatchTarget → Type 0
  ComesFrom data_list path lower t =
      (d : SourceData) × (Has d data_list
        × ((d.source ≡ t.key)
            × ((d.revision ≡ t.revision)
                × ((collect_yaml o.yaml d ≡ collected t.config)
                    × (path_depth t.config path lower ≡ done (some t.priority))))))

  later :
      (d : SourceData) (rest : List SourceData) (path : ConfigPath) (lower : ℕ) (t : PatchTarget)
      → ComesFrom rest path lower t
      → ComesFrom (d ∷ rest) path lower t
  later d rest path lower t (x, (has, facts)) = (x, (inr has, facts))

  targets_of-ComesFrom :
      (data_list : List SourceData) (path : ConfigPath) (lower : ℕ) (targets : List PatchTarget)
      (t : PatchTarget)
      → targets_of o data_list path lower ≡ done targets
      → Has t targets
      → ComesFrom data_list path lower t
  unfolding targets_of
  targets_of-ComesFrom [] path lower targets t h has = absurd (ground (arith, h, has))
  targets_of-ComesFrom (d ∷ rest) path lower targets t h has =
      decoded (collect_yaml o.yaml d) refl (λ ts q k. targets_of-ComesFrom rest path lower ts t q k)
    where
      decoded :
          (c : Collected Config)
          → collect_yaml o.yaml d ≡ c
          → ((ts : List PatchTarget)
              → targets_of o rest path lower ≡ done ts
              → Has t ts
              → ComesFrom rest path lower t)
          → ComesFrom (d ∷ rest) path lower t
      decoded (Collected.failed e) q ih = absurd (ground (arith, q, h))
      decoded (collected c) q ih =
          elim (added d c (path_depth c path lower) (targets_of o rest path lower) targets t
            (ground (arith, q, h)) has) [
              | inl (n, (depth, same)) ↦ (
                d,
                (
                  inl refl,
                  (
                    ap (λ (x : PatchTarget). x.key) (sym same),
                    (
                      ap (λ (x : PatchTarget). x.revision) (sym same),
                      (q ∙ ap (λ (x : PatchTarget). collected x.config) (sym same), rw same depth),
                    ),
                  ),
                ),
              )
              | inr (ts, (more, k)) ↦ later d rest path lower t (ih ts more k)
            ]

  pick_target-Has :
      (targets : List PatchTarget) (force : Bool) (path : ConfigPath) (t : PatchTarget)
      (n : Option ℕ)
      → o.pick (map (λ (x : PatchTarget). x.key) targets) force path ≡ n
      → pick_target o targets force path ≡ done t
      → Has t targets
  unfolding pick_target
  pick_target-Has targets force path t none q h = absurd (ground (arith, q, h))
  pick_target-Has targets force path t (some n) q h = picked (nth n targets) refl
    where
      picked : (x : Option PatchTarget) → nth n targets ≡ x → Has t targets
      picked none r = absurd (ground (arith, q, h, r))
      picked (some x) r = nth-Has n targets t (ground (arith, q, h, r))

module _ {Store : Type 0} (o : Outside Store)
    (rearranges : (l : List PatchTarget) (t : PatchTarget) → Has t (o.sort greater l) → Has t l)
    (name : String) (force : Bool) (get_path : CconfigInstance → Outcome (ConfigPath × ℕ))
    (patch : CconfigInstance → Config → Outcome Config) (source : Option (List SourceData)) where
  patch_targets-ComesFrom :
      (data_list : List SourceData) (path : ConfigPath) (lower : ℕ) (targets : List PatchTarget)
      (t : PatchTarget)
      → patch_targets o data_list path lower ≡ done targets
      → Has t targets
      → ComesFrom o data_list path lower t
  unfolding patch_targets
  patch_targets-ComesFrom data_list path lower targets t h has =
      let (l, (made, same)) =
        bind_done (targets_of o data_list path lower) (λ l. done (o.sort greater l)) targets h in
      let sorted : o.sort greater l ≡ targets = ground (arith, same) in
      targets_of-ComesFrom o data_list path lower l t made (rearranges l t (rw sorted has))

  -- The steps of a patch that reaches its publication.
  pub record Reached (target : PatchTarget) (patched : Config) : Type 0 where
    pub data_list : List SourceData
    pub cluster : ClusterConfig
    pub instance_of : CconfigInstance
    pub path : ConfigPath
    pub lower : ℕ
    pub collects : collect_cconfig o source ≡ done (data_list, cluster)
    pub found : get_cconfig_instance cluster name ≡ done instance_of
    pub path_found : get_path instance_of ≡ done (path, lower)
    pub from : ComesFrom o data_list path lower target
    pub patches : patch instance_of target.config ≡ done patched

  patch_picked_done :
      (i : CconfigInstance) (t target : PatchTarget) (patched : Config)
      → patch_picked o force get_path patch i t ≡ done (target, patched)
      → (t ≡ target) × (patch i t.config ≡ done patched)
  unfolding patch_picked
  patch_picked_done i t target patched h =
      let (q, (patches, same)) =
        bind_done (patch i t.config) (λ (c : Config). done (t, c)) (target, patched) h in
      (ground (arith, same), ground (arith, same, patches))

  patch_at_done :
      (data_list : List SourceData) (i : CconfigInstance) (path : ConfigPath) (lower : ℕ)
      (target : PatchTarget) (patched : Config)
      → patch_at o force get_path patch data_list i (path, lower) ≡ done (target, patched)
      → ComesFrom o data_list path lower target × (patch i target.config ≡ done patched)
  unfolding patch_at
  patch_at_done data_list i path lower target patched h =
      let (targets, (made, h1)) =
        bind_done (patch_targets o data_list path lower) _ (target, patched) h in
      let (t, (picked, h2)) =
        bind_done (pick_target o targets force path) (patch_picked o force get_path patch i)
          (target, patched) h1 in
      let (same, patches) = patch_picked_done i t target patched h2 in
      let from =
        patch_targets-ComesFrom data_list path lower targets t made
          (pick_target-Has o targets force path t _ refl picked) in
      (
        subst (ComesFrom o data_list path lower) same from,
        subst (λ (x : PatchTarget). patch i x.config ≡ done patched) same patches,
      )

  pub patched_target-Reached :
      (target : PatchTarget) (patched : Config)
      → patched_target o force get_path patch name source ≡ done (target, patched)
      → Reached target patched
  unfolding patched_target patch_found
  patched_target-Reached target patched h =
      let ((data_list, cluster), (collects, h1)) =
        bind_done (collect_cconfig o source) _ (target, patched) h in
      let (i, (found, h2)) =
        bind_done (get_cconfig_instance cluster name) (patch_found o force get_path patch data_list)
          (target, patched) h1 in
      let ((path, lower), (path_found, h3)) =
        bind_done (get_path i) (patch_at o force get_path patch data_list i) (target, patched) h2 in
      let (from, patches) = patch_at_done data_list i path lower target patched h3 in
      record {
        data_list = data_list;
        cluster = cluster;
        instance_of = i;
        path = path;
        lower = lower;
        collects = collects;
        found = found;
        path_found = path_found;
        from = from;
        patches = patches;
      }

settled :
    (i n : ℕ) (r : Result Value) (rest : Outcome (Option ℕ))
    → settle_depth i (is_there r) rest ≡ done (some n)
    → ((i ≡ n) × ((v : Value) × (r ≡ ok v))) ⊎ (rest ≡ done (some n))
settled i n (ok v) rest h = inl (ground (arith, h), (v, refl))
settled i n (err (not_exist p)) rest h = inr h
settled i n (err (not_map p)) rest h = absurd (ground (arith, h))

depth_from-there :
    (c : Config) (path : ConfigPath) (lower i n : ℕ)
    → depth_from c path lower i ≡ done (some n)
    → (lower ≤ n) × ((v : Value) × (get (take n path) c ≡ ok v))
unfolding depth_from
depth_from-there c path lower zero n h = elim (Bool-cases (nat_eq lower 0)) [
  | inr other ↦ absurd (ground (arith, h, other))
  | inl same ↦ elim (settled 0 n (get (take 0 path) c) (done none) (ground (arith, h, same))) [
    | inl (e, (v, there)) ↦ (
      ground (arith, same, e, nat_eq_iff lower 0),
      (v, subst (λ (k : ℕ). get (take k path) c ≡ ok v) e there),
    )
    | inr none_left ↦ absurd (ground (arith, none_left))
  ]
]
depth_from-there c path lower (suc i) n h = elim (Bool-cases (ltb (suc i) lower)) [
  | inl below ↦ absurd (ground (arith, h, below))
  | inr above ↦
      elim (settled (suc i) n (get (take (suc i) path) c) (depth_from c path lower i)
        (ground (arith, h, above))) [
          | inl (e, (v, there)) ↦
              (ground (arith, above, e), (v, subst (λ (k : ℕ). get (take k path) c ≡ ok v) e there))
          | inr deeper ↦ depth_from-there c path lower i n deeper
        ]
]

-- The depth that is found is at least the lower one, and the path to it is there.
pub path_depth-there :
    (c : Config) (path : ConfigPath) (lower n : ℕ)
    → path_depth c path lower ≡ done (some n)
    → (lower ≤ n) × ((v : Value) × (get (take n path) c ≡ ok v))
unfolding path_depth
path_depth-there c path lower n h = depth_from-there c path lower (length path) n h
