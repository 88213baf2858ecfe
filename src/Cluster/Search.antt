-- ===== src/Cluster/Search.antt =====
-- The loops of cluster.go over groups, replicasets and instances all find the same instance.
use tt.Prelude.{
  String, ◌≡◌, refl, ap, sym, ◌∙◌, Bool, true, false, ◌||◌, Option, none, some, List, [], ◌∷◌, ◌++◌,
  arith, ◌==◌, eq_iff, if◌then◌else◌,
}
use mathlib.Core.Path.{ap₂}
use mathlib.Core.Option
use tt.Cluster.{
  NameMap, InstanceConfig, ReplicasetConfig, GroupConfig, ClusterConfig, merge_scopes,
  find_instance_config, first_some, find_instance, has_instance, instances, instance_names,
  replicaset_names, group_names,
}

-- Where an instance stands.
pub record Location : Type 0 where
  pub group_name : String
  pub group : GroupConfig
  pub replicaset_name : String
  pub replicaset : ReplicasetConfig
  pub instance_name : String
  pub instance : InstanceConfig

-- The first instance of the name, in the order of the loops.
abbrev pub locate : ClusterConfig → String → Option Location
locate cluster name =
    first_some
      (λ (g : String × GroupConfig).
        first_some
          (λ (r : String × ReplicasetConfig).
            first_some
              (λ (i : String × InstanceConfig).
                if i.0 == name
                then some (record {
                  group_name = g.0;
                  group = g.1;
                  replicaset_name = r.0;
                  replicaset = r.1;
                  instance_name = i.0;
                  instance = i.1;
                })
                else none)
              r.1.instances)
          g.1.replicasets)
      cluster.groups

first_some-map {ℓ κ μ} :
    {A : Type ℓ} {B : Type κ} {C : Type μ} (k : B → C) (f : A → Option B) (g : A → Option C)
    (l : List A)
    → ((x : A) → g x ≡ Option.map k (f x))
    → first_some g l ≡ Option.map k (first_some f l)
unfolding first_some
first_some-map k f g [] h = refl
first_some-map k f g (x ∷ l) h = ground (arith, h x, first_some-map k f g l h)

pub find_instance_config-eq-locate :
    (cluster : ClusterConfig) (name : String)
    → find_instance_config cluster name
      ≡ Option.map (λ l. merge_scopes cluster l.group l.replicaset l.instance) (locate cluster name)
unfolding find_instance_config
find_instance_config-eq-locate cluster name = first_some-map _ _ _ cluster.groups (λ g.
    first_some-map _ _ _ g.1.replicasets
      (λ r. first_some-map _ _ _ r.1.instances (λ i. ground arith)))

pub find_instance-eq-locate :
    (cluster : ClusterConfig) (name : String)
    → find_instance cluster name
      ≡ Option.map (λ l. (l.group_name, l.replicaset_name)) (locate cluster name)
unfolding find_instance
find_instance-eq-locate cluster name = first_some-map _ _ _ cluster.groups (λ g.
    first_some-map _ _ _ g.1.replicasets (λ r.
      first_some-map _ _ _ r.1.instances (λ i. ground (arith, eq_iff i.0 name, eq_iff name i.0))))

abbrev pub elem : String → List String → Bool
elem k [] = false
elem k (j ∷ l) = j == k || elem k l

elem-append : (k : String) (a b : List String) → elem k (a ++ b) ≡ (elem k a || elem k b)
elem-append k [] b = refl
elem-append k (j ∷ a) b = ground (arith, elem-append k a b)

abbrev pub is_some {ℓ} : {A : Type ℓ} → Option A → Bool
is_some (some a) = true
is_some none = false

is_some-first_some_cons {ℓ κ} :
    {A : Type ℓ} {B : Type κ} (f : A → Option B) (x : A) (l : List A)
    → is_some (first_some f (x ∷ l)) ≡ (is_some (f x) || is_some (first_some f l))
unfolding first_some
is_some-first_some_cons f x l = ground arith

abbrev in_instances : String → NameMap InstanceConfig → Bool
in_instances name [] = false
in_instances name ((i, x) ∷ l) = i == name || in_instances name l

abbrev in_replicasets : String → NameMap ReplicasetConfig → Bool
in_replicasets name [] = false
in_replicasets name ((r, x) ∷ l) = in_instances name x.instances || in_replicasets name l

abbrev in_groups : String → NameMap GroupConfig → Bool
in_groups name [] = false
in_groups name ((g, x) ∷ l) = in_replicasets name x.replicasets || in_groups name l

module _ (name : String) where
  instance_names-elem :
      (l : NameMap InstanceConfig) (found : List String)
      → elem name (instance_names l found) ≡ (elem name found || in_instances name l)
  unfolding instance_names
  instance_names-elem [] found = ground arith
  instance_names-elem ((i, x) ∷ l) found =
      ground (arith, instance_names-elem l (found ++ i ∷ []), elem-append name found (i ∷ []))

  replicaset_names-elem :
      (l : NameMap ReplicasetConfig) (found : List String)
      → elem name (replicaset_names l found) ≡ (elem name found || in_replicasets name l)
  unfolding replicaset_names
  replicaset_names-elem [] found = ground arith
  replicaset_names-elem ((r, x) ∷ l) found = ground (
    arith,
    replicaset_names-elem l (instance_names x.instances found),
    instance_names-elem x.instances found,
  )

  group_names-elem :
      (l : NameMap GroupConfig) (found : List String)
      → elem name (group_names l found) ≡ (elem name found || in_groups name l)
  unfolding group_names
  group_names-elem [] found = ground arith
  group_names-elem ((r, x) ∷ l) found = ground (
    arith,
    group_names-elem l (replicaset_names x.replicasets found),
    replicaset_names-elem x.replicasets found,
  )

module _ {ℓ} {B : Type ℓ} (name : String) where
  first_some-instances :
      (f : String × InstanceConfig → B) (l : NameMap InstanceConfig)
      → is_some
          (first_some (λ (i : String × InstanceConfig). if i.0 == name then some (f i) else none) l)
        ≡ in_instances name l
  unfolding first_some
  first_some-instances f [] = refl
  first_some-instances f ((i, x) ∷ l) = ground (arith, first_some-instances f l)

  first_some-replicasets :
      (f : String × ReplicasetConfig → String × InstanceConfig → B) (l : NameMap ReplicasetConfig)
      → is_some (
          first_some
            (λ (r : String × ReplicasetConfig).
              first_some
                (λ (i : String × InstanceConfig). if i.0 == name then some (f r i) else none)
                r.1.instances)
            l)
        ≡ in_replicasets name l
  first_some-replicasets f [] = unfold first_some in refl
  first_some-replicasets f ((r, x) ∷ l) =
      is_some-first_some_cons
        (λ (r' : String × ReplicasetConfig).
          first_some (λ (i : String × InstanceConfig). if i.0 == name then some (f r' i) else none)
            r'.1.instances)
        (r, x) l
      ∙ ap₂ ◌||◌ (first_some-instances (f (r, x)) x.instances) (first_some-replicasets f l)

  first_some-groups :
      (f : String × GroupConfig → String × ReplicasetConfig → String × InstanceConfig → B)
      (l : NameMap GroupConfig)
      → is_some (
          first_some
            (λ (g : String × GroupConfig).
              first_some
                (λ (r : String × ReplicasetConfig).
                  first_some
                    (λ (i : String × InstanceConfig). if i.0 == name then some (f g r i) else none)
                    r.1.instances)
                g.1.replicasets)
            l)
        ≡ in_groups name l
  first_some-groups f [] = unfold first_some in refl
  first_some-groups f ((g, x) ∷ l) =
      is_some-first_some_cons
        (λ (g' : String × GroupConfig).
          first_some
            (λ (r : String × ReplicasetConfig).
              first_some
                (λ (i : String × InstanceConfig). if i.0 == name then some (f g' r i) else none)
                r.1.instances)
            g'.1.replicasets)
        (g, x) l
      ∙ ap₂ ◌||◌ (first_some-replicasets (f (g, x)) x.replicasets) (first_some-groups f l)

is_some-map {ℓ κ} :
    {A : Type ℓ} {B : Type κ} (f : A → B) (o : Option A) → is_some (Option.map f o) ≡ is_some o
is_some-map f none = refl
is_some-map f (some a) = refl

is_some-found :
    (cluster : ClusterConfig) (name : String)
    → is_some (find_instance cluster name) ≡ is_some (find_instance_config cluster name)
is_some-found cluster name =
    ap is_some (find_instance-eq-locate cluster name)
    ∙ is_some-map _ (locate cluster name)
    ∙ sym (is_some-map _ (locate cluster name))
    ∙ sym (ap is_some (find_instance_config-eq-locate cluster name))

-- A name is listed by `Instances` exactly when `HasInstance` answers true, and exactly when
-- `FindInstance` finds its group and replicaset.
pub instances-has_instance :
    (cluster : ClusterConfig) (name : String)
    → (elem name (instances cluster) ≡ has_instance cluster name)
      × (is_some (find_instance cluster name) ≡ has_instance cluster name)
unfolding instances has_instance find_instance_config
instances-has_instance cluster name = (
  group_names-elem name cluster.groups []
      ∙ sym (first_some-groups name (λ g r i. merge_scopes cluster g.1 r.1 i.1) cluster.groups),
  is_some-found cluster name,
)
