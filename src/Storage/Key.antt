-- ===== src/Storage/Key.antt =====
-- `EtcdKeyDataPublisher.Publish` and `EtcdKeyCollector.Collect`, lib/cluster/etcd.go, together.
use tt.Prelude.{
  ℕ, String, ◌<>◌, ◌≡◌, refl, ◌∙◌, ◌≢◌, ◌⊎◌, inl, inr, Bool, true, false, Option, none, some, List,
  [], ◌∷◌, if◌then◌else◌, nat_eq, nat_eq_iff, ◌==◌, arith, eq_iff, Bool-cases, eq_refl, subst,
}
use tt.Storage.{StorageError, wrong_revision, SignFunc, get_config_prefix, get_config_key, fetched}
use tt.Storage.Etcd.{Op, value_of, revision_of, is_written, Etcd, holds, Documented}
use tt.Storage.Publish.{collect_key}
use tt.Storage.Signed.{sign_ops, guard, key_txn, publish_key}
use tt.Storage.SignOps.{sign_ops_keep, after_unwritten}

module _ (e : Etcd) (d : Documented e) (base key : String) (revision : ℕ) (text : String)
    (s : e.Store) where
  abbrev pub target : String
  target = get_config_prefix base <> key

  abbrev pub Allowed : Type 0
  Allowed = (revision ≡ 0) ⊎ (revision_of (e.found s target) ≡ revision)

  holds-guard : Allowed → holds e s (guard revision target) ≡ true
  holds-guard (inl zero_it) = ground (arith, zero_it)
  holds-guard (inr same) =
      ground (arith, same, nat_eq_iff (revision_of (e.found s target)) revision)

  pub guard_cases :
      ((holds e s (guard revision target) ≡ true) × Allowed)
      ⊎ ((holds e s (guard revision target) ≡ false)
          × ((revision ≢ 0) × (revision_of (e.found s target) ≢ revision)))
  guard_cases = elim (Bool-cases (nat_eq revision 0)) [
    | inl zero_it ↦
        let same = (nat_eq_iff revision 0).0 zero_it in inl (holds-guard (inl same), inl same)
    | inr other ↦ elim (Bool-cases (nat_eq (revision_of (e.found s target)) revision)) [
      | inl same ↦
          let q = (nat_eq_iff (revision_of (e.found s target)) revision).0 same in
          inl (holds-guard (inr q), inr q)
      | inr differs ↦ inr (
        rw (other, differs) refl,
        (
          λ q. absurd (ground (arith, other, q)),
          λ q.
              absurd
                (ground (arith, differs, q, nat_eq_iff (revision_of (e.found s target)) revision)),
        ),
      )
    ]
  ]

  pub publish_key_step :
      (sign : Option SignFunc) (ops : List Op)
      → sign_ops sign base key text ≡ some ops
      → publish_key e sign false base key revision (some text) s ≡ (
        (e.commit (key_txn target revision text ops) s).0,
        (if holds e s (guard revision target) then none else some wrong_revision),
      )
  unfolding publish_key key_txn
  publish_key_step sign ops signed =
      ground (arith, signed, d.decides (key_txn target revision text ops) s)

  -- What the transaction does to the key itself.
  pub written :
      (ops : List Op)
      → is_written ops target ≡ false
      → holds e s (guard revision target) ≡ true
      → value_of (e.found (e.commit (key_txn target revision text ops) s).0 target) ≡ some text
  unfolding key_txn
  written ops keep yes_it =
      d.writes (key_txn target revision text ops) s target
      ∙ rw (yes_it, eq_refl target) (after_unwritten ops target (some text) keep)

  kept :
      (ops : List Op) (k : String)
      → is_written ops k ≡ false
      → (target == k) ≡ false
      → e.found (e.commit (key_txn target revision text ops) s).0 k ≡ e.found s k
  unfolding key_txn
  kept ops k keep other =
      d.leaves (key_txn target revision text ops) s k
        (elim (Bool-cases (holds e s (guard revision target))) [
          | inl yes_it ↦ rw (yes_it, other) keep
          | inr no_it ↦ rw no_it refl
        ])

  unchanged :
      (ops : List Op) (k : String)
      → holds e s (guard revision target) ≡ false
      → e.found (e.commit (key_txn target revision text ops) s).0 k ≡ e.found s k
  unfolding key_txn
  unchanged ops k no_it = d.leaves (key_txn target revision text ops) s k (rw no_it refl)

-- What `EtcdKeyDataPublisher.Publish` promises of a key: the check-and-set.
abbrev pub Published :
    (e : Etcd) → String → String → ℕ → String → e.Store → e.Store × Option StorageError → Type 0
Published e prefix key revision text s r =
    ((((revision ≡ 0) ⊎ (revision_of (e.found s (prefix <> key)) ≡ revision)) × (r.1 ≡ none))
      × ((value_of (e.found r.0 (prefix <> key)) ≡ some text)
          × ((k : String)
              → prefix <> k ≢ prefix <> key
              → e.found r.0 (prefix <> k) ≡ e.found s (prefix <> k))))
    ⊎ (((revision ≢ 0) × (revision_of (e.found s (prefix <> key)) ≢ revision))
        × ((r.1 ≡ some wrong_revision) × ((k : String) → e.found r.0 k ≡ e.found s k)))

-- Where signing works and the call reaches the server, `EtcdKeyDataPublisher.Publish` either puts the
-- contents under the key, changes no other key of the configuration and returns no error, which is so when
-- the requested revision is 0 or the key's revision; or it returns the error of a wrong revision and
-- changes no key at all, which is so otherwise.
pub publish_key-Published :
    (e : Etcd) (d : Documented e) (base key : String) (revision : ℕ) (text : String) (s : e.Store)
    (sign : Option SignFunc) (ops : List Op)
    → sign_ops sign base key text ≡ some ops
    → Published e
        (get_config_prefix base)
        key
        revision
        text
        s
        (publish_key e sign false base key revision (some text) s)
publish_key-Published e d base key revision text s sign ops signed =
    let step = publish_key_step e d base key revision text s sign ops signed in
    let prefix = get_config_prefix base in
    rw step (elim (guard_cases e d base key revision text s) [
      | inl (yes_it, allowed) ↦ inl (
        (allowed, rw yes_it refl),
        (
          written e d base key revision text s ops (sign_ops_keep base key sign text ops key signed)
              yes_it,
          λ k other.
              kept e d base key revision text s ops (prefix <> k)
                (sign_ops_keep base key sign text ops k signed)
                (ground (arith, other, eq_iff (prefix <> key) (prefix <> k))),
        ),
      )
      | inr (no_it, differs) ↦
          inr (differs, (rw no_it refl, λ k. unchanged e d base key revision text s ops k no_it))
    ])

pub value_of-some :
    (o : Option (String × ℕ)) (text : String)
    → value_of o ≡ some text
    → (n : ℕ) × (o ≡ some (text, n))
value_of-some none text h = absurd (ground (arith, h))
value_of-some (some (v, n)) text h = (n, ground (arith, h))

-- No error means that signing and the call worked.
pub publish_key_signed :
    (e : Etcd) (base key : String) (revision : ℕ) (text : String) (s : e.Store)
    (sign : Option SignFunc) (commit_fails : Bool) (o : Option (List Op))
    → sign_ops sign base key text ≡ o
    → (publish_key e sign commit_fails base key revision (some text) s).1 ≡ none
    → (ops : List Op) × ((sign_ops sign base key text ≡ some ops) × (commit_fails ≡ false))
unfolding publish_key
publish_key_signed e base key revision text s sign commit_fails none q h =
    absurd (ground (arith, q, h))
publish_key_signed e base key revision text s sign commit_fails (some ops) q h =
    (ops, (q, ground (arith, q, h)))

pub published_value :
    (e : Etcd) (d : Documented e) (base key : String) (revision : ℕ) (text : String) (s : e.Store)
    (sign : Option SignFunc) (ops : List Op)
    → sign_ops sign base key text ≡ some ops
    → (publish_key e sign false base key revision (some text) s).1 ≡ none
    → value_of (
        e.found
          (publish_key e sign false base key revision (some text) s).0
          (get_config_prefix base <> key))
      ≡ some text
published_value e d base key revision text s sign ops signed h =
    elim (publish_key-Published e d base key revision text s sign ops signed) [
      | inl ok ↦ ok.1.0
      | inr bad ↦ absurd (ground (arith, h, bad.1.0))
    ]

-- Where `EtcdKeyDataPublisher.Publish` returns no error, `EtcdKeyCollector.Collect` with the same prefix and key
-- finds the published contents and nothing else.
publish_key-collect_key :
    (e : Etcd) (d : Documented e) (base key : String) (revision : ℕ) (text : String) (s : e.Store)
    (sign : Option SignFunc) (commit_fails : Bool)
    → (publish_key e sign commit_fails base key revision (some text) s).1 ≡ none
    → (n : ℕ) × (collect_key e false base key
          (publish_key e sign commit_fails base key revision (some text) s).0
        ≡ fetched (record { source = get_config_key base key; value = text; revision = n } ∷ []))
unfolding collect_key get_config_key
publish_key-collect_key e d base key revision text s sign commit_fails h =
    let (ops, (signed, works)) =
      publish_key_signed e base key revision text s sign commit_fails _ refl h in
    let h2 : (publish_key e sign false base key revision (some text) s).1 ≡ none =
      subst (λ (b : Bool). (publish_key e sign b base key revision (some text) s).1 ≡ none) works
        h in
    let (n, q) =
      value_of-some _ text (published_value e d base key revision text s sign ops signed h2) in
    rw works (n, rw q refl)
