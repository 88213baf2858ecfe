-- ===== src/Storage/Swap.antt =====
-- What a call of `EtcdAllDataPublisher.Publish`, lib/cluster/etcd.go, does to the keys while other
-- clients change them.
use tt.Prelude.{
  ℕ, String, ◌<>◌, ◌≡◌, refl, sym, ◌∙◌, ◌≢◌, true, false, Option, none, some, [], ◌∷◌, ◌++◌, map,
  Has, arith,
}
use tt.Storage.Etcd.{Kv, op_put, Txn, revision_of, value_of, Etcd, holds, chosen, Documented}
use tt.Storage.Publish.{stale_kvs, delete_kv, all_txn, Round}
use tt.Storage.Cas.{
  stale_kvs-Has, Has-stale_kvs, after_put, after_delete, is_written_other, holds-Has,
}

pub value_of-none : (o : Option (String × ℕ)) → value_of o ≡ none → o ≡ none
value_of-none none h = refl
value_of-none (some (v, r)) h = absurd (ground (arith, h))

-- One transaction: what was seen before it is unchanged when it runs, and is gone after it.
pub record Swapped (e : Etcd) (prefix key contents : String) (seen now next : e.Store)
    : Type 0 where
  pub written : value_of (e.found next key) ≡ some contents
  pub removed :
      (k rest value : String) (revision : ℕ)
      → k ≡ prefix <> rest
      → k ≢ key
      → e.found seen k ≡ some (value, revision)
      → (revision_of (e.found now k) ≡ revision) × (e.found next k ≡ none)
  pub kept :
      (k : String)
      → k ≢ key
      → ((rest : String) → k ≡ prefix <> rest → e.found seen k ≡ none)
      → e.found next k ≡ e.found now k

-- Other clients leave every key of every store as it is between the two calls of a round, and neither call fails.
pub record IsQuiet (e : Etcd) (r : Round e.Store) : Type 0 where
  pub get_works : r.get_fails ≡ false
  pub commit_works : r.commit_fails ≡ false
  pub untouched : (s : e.Store) (k : String) → e.found (r.between s) k ≡ e.found s k

abbrev pub Works : (e : Etcd) → Round e.Store → Type 0
Works e r = (r.get_fails ≡ false) × (r.commit_fails ≡ false)

module _ (e : Etcd) (d : Documented e) (prefix key contents : String) where
  module _ (seen now : e.Store) where
    abbrev pub txn : Txn
    txn = all_txn key contents (e.range seen prefix)

    holds-chosen :
        holds e now txn.cmps ≡ true
        → chosen e now txn
          ≡ map delete_kv (stale_kvs key (e.range seen prefix)) ++ op_put key contents ∷ []
    unfolding all_txn
    holds-chosen h = rw h refl

    pub txn-Swapped :
        holds e now txn.cmps ≡ true → Swapped e prefix key contents seen now ((e.commit txn now).0)
    unfolding all_txn
    txn-Swapped h = record {
      written =
          d.writes txn now key
          ∙ rw (holds-chosen h) (after_put key contents (stale_kvs key (e.range seen prefix)) _);
      removed = λ k rest value revision begins other there.
          let kv : Kv = record { key = k; value = value; mod_revision = revision } in
          let has : Has kv (stale_kvs key (e.range seen prefix)) =
            Has-stale_kvs key kv _ other ((d.ranges seen prefix kv).1 ((rest, begins), there)) in
          (
            holds-Has e now kv _ h has,
            value_of-none _ (
                d.writes txn now k
                ∙ rw (holds-chosen h)
                    (after_delete key contents k kv _ _ (λ q. other (sym q)) refl has)),
          );
      kept = λ k other unseen. d.leaves txn now k (
          rw (holds-chosen h) (
            is_written_other key contents k _ (λ q. other (sym q))
              (λ kv has q.
                let ((rest, begins), there) =
                  (d.ranges seen prefix kv).0 (stale_kvs-Has key kv _ has).0 in
                absurd (ground (arith, there, q, begins, unseen rest (sym q ∙ begins))))));
    }
