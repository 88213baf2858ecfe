-- ===== src/Storage/Cas.antt =====
-- The transaction by which a publisher of lib/cluster/etcd.go replaces the keys it has read.
use tt.Prelude.{
  String, ◌≡◌, refl, ◌≢◌, ◌⊎◌, inl, inr, true, false, Option, none, some, List, [], ◌∷◌, ◌++◌, map,
  Has, if◌then◌else◌, nat_eq_iff, ◌==◌, arith, eq_iff, Bool-cases, eq_refl,
}
use tt.Storage.Etcd.{Kv, op_put, revision_of, after, is_written, Etcd, holds}
use tt.Storage.Publish.{stale_kvs, compare_kv, delete_kv}

pub stale_kvs-Has :
    (key : String) (kv : Kv) (l : List Kv) → Has kv (stale_kvs key l) → Has kv l × (kv.key ≢ key)
unfolding stale_kvs
stale_kvs-Has key kv [] h = absurd h
stale_kvs-Has key kv (x ∷ l) h = elim (Bool-cases (x.key == key)) [
  | inl same ↦ let (k, d) = stale_kvs-Has key kv l (ground (arith, h, same)) in (inr k, d)
  | inr other ↦ elim (the_two other) [
    | inl e ↦ (inl e, λ q. absurd (ground (arith, other, q, e, eq_iff x.key key)))
    | inr r ↦ let (k, d) = stale_kvs-Has key kv l r in (inr k, d)
  ]
]
  where
    the_two : (x.key == key) ≡ false → (kv ≡ x) ⊎ Has kv (stale_kvs key l)
    the_two other = ground (arith, h, other)

pub Has-stale_kvs :
    (key : String) (kv : Kv) (l : List Kv) → kv.key ≢ key → Has kv l → Has kv (stale_kvs key l)
unfolding stale_kvs
Has-stale_kvs key kv [] d h = absurd h
Has-stale_kvs key kv (x ∷ l) d (inl e) = ground (arith, d, e, eq_iff x.key key)
Has-stale_kvs key kv (x ∷ l) d (inr k) =
    let rest = Has-stale_kvs key kv l d k in
    elim (Bool-cases (x.key == key)) [
      | inl same ↦ ground (arith, same, rest)
      | inr other ↦ ground (arith, other, rest)
    ]

pub after-none :
    (key contents k : String) (l : List Kv)
    → key ≢ k
    → after (map delete_kv l ++ op_put key contents ∷ []) k none ≡ none
after-none key contents k [] d = ground (arith, d, eq_iff key k)
after-none key contents k (x ∷ l) d = elim (Bool-cases (x.key == k)) [
  | inl same ↦ rw same (after-none key contents k l d)
  | inr other ↦ rw other (after-none key contents k l d)
]

pub after_put :
    (key contents : String) (l : List Kv) (old : Option String)
    → after (map delete_kv l ++ op_put key contents ∷ []) key old ≡ some contents
after_put key contents [] old = rw (eq_refl key) refl
after_put key contents (x ∷ l) old = after_put key contents l (if x.key == key then none else old)

pub after_delete :
    (key contents k : String) (kv : Kv) (l : List Kv) (old : Option String)
    → key ≢ k
    → kv.key ≡ k
    → Has kv l
    → after (map delete_kv l ++ op_put key contents ∷ []) k old ≡ none
after_delete key contents k kv [] old d e h = absurd h
after_delete key contents k kv (x ∷ l) old d e (inl q) =
    let same : (x.key == k) ≡ true = ground (arith, e, q, eq_iff x.key k) in
    rw same (after-none key contents k l d)
after_delete key contents k kv (x ∷ l) old d e (inr h) =
    after_delete key contents k kv l (if x.key == k then none else old) d e h

pub is_written_other :
    (key contents k : String) (l : List Kv)
    → key ≢ k
    → ((kv : Kv) → Has kv l → kv.key ≢ k)
    → is_written (map delete_kv l ++ op_put key contents ∷ []) k ≡ false
is_written_other key contents k [] d out = ground (arith, d, eq_iff key k)
is_written_other key contents k (x ∷ l) d out =
    let ih = is_written_other key contents k l d (λ kv h. out kv (inr h)) in
    ground (arith, ih, out x (inl refl), eq_iff x.key k)

module _ (e : Etcd) where
  pub holds-Has :
      (s : e.Store) (kv : Kv) (l : List Kv)
      → holds e s (map compare_kv l) ≡ true
      → Has kv l
      → revision_of (e.found s kv.key) ≡ kv.mod_revision
  holds-Has s kv [] h k = absurd k
  holds-Has s kv (x ∷ l) h (inl q) =
      let r = nat_eq_iff (revision_of (e.found s x.key)) x.mod_revision in ground (arith, h, q, r)
  holds-Has s kv (x ∷ l) h (inr k) = holds-Has s kv l (ground (arith, h)) k

  pub Has-holds :
      (s : e.Store) (l : List Kv)
      → ((kv : Kv) → Has kv l → revision_of (e.found s kv.key) ≡ kv.mod_revision)
      → holds e s (map compare_kv l) ≡ true
  Has-holds s [] all = refl
  Has-holds s (x ∷ l) all =
      let ih = Has-holds s l (λ kv h. all kv (inr h)) in
      ground
        (arith, ih, all x (inl refl), nat_eq_iff (revision_of (e.found s x.key)) x.mod_revision)
