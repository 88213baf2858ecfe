-- ===== src/Storage/Exchanged.antt =====
-- What `IntegrityEtcdAllDataPublisher.Publish`, lib/cluster/etcd.go, does to the keys while other
-- clients change them.
use tt.Prelude.{
  ℕ, String, ◌<>◌, ◌≡◌, refl, sym, subst, ap, ◌∙◌, ◌⊎◌, inl, inr, true, false, none, some, List,
  map, Has, arith, eq_iff,
}
use tt.Storage.{
  Hashes, get_config_prefix, get_config_key, get_hashes_prefix, get_sign_prefix, get_sign_key,
}
use tt.Storage.Etcd.{Kv, Txn, revision_of, value_of, after, Etcd, holds, Documented}
use tt.Storage.Publish.{delete_kv, compare_kv, stale_kvs}
use tt.Storage.Cas.{stale_kvs-Has, Has-stale_kvs, holds-Has}
use tt.Storage.Swap.{value_of-none}
use tt.Storage.SignOps.{after_unwritten}
use tt.Storage.Exchange.{Target, target_of, stale_hashes, all_stale, exchange_txn}
use tt.Storage.Puts.{
  append-Has, stale_hashes-Has, is_written-deletes, Has-append, Has-stale_hashes, after-append,
  deleted_Has, is_target, puts, unwritten_puts, config_no_hash, sign_no_hash, sign_no_config,
  put_text, put_sig,
}

-- A key of one of the three families under a prefix.
abbrev pub IsOurs : String → String → Type 0
IsOurs base k =
    (rest : String) × ((k ≡ get_config_prefix base <> rest)
      ⊎ ((k ≡ get_hashes_prefix base <> rest) ⊎ (k ≡ get_sign_prefix base <> rest)))

-- One transaction: contents and signature are written, the other keys that were seen are unchanged when
-- it runs and gone after it, and no key that is neither written nor seen changes.
pub record Exchanged (e : Etcd) (base : String) (t : Target) (seen now next : e.Store)
    : Type 0 where
  pub text_written : value_of (e.found next (get_config_key base "all")) ≡ some t.text
  pub sig_written : value_of (e.found next (get_sign_key base "all")) ≡ some t.sig
  pub removed :
      (k value : String) (revision : ℕ)
      → IsOurs base k
      → is_target t k ≡ false
      → e.found seen k ≡ some (value, revision)
      → (revision_of (e.found now k) ≡ revision) × (e.found next k ≡ none)
  pub kept :
      (k : String)
      → is_target t k ≡ false
      → (IsOurs base k → e.found seen k ≡ none)
      → e.found next k ≡ e.found now k

module _ (e : Etcd) (d : Documented e) (base text : String) (hashes : Hashes) (sig : String) where
  abbrev pub t : Target
  t = target_of base text hashes sig

  abbrev pub stale : e.Store → List Kv
  stale seen =
      all_stale t (e.range seen (get_config_prefix base)) (e.range seen (get_hashes_prefix base))
        (e.range seen (get_sign_prefix base))

  Has-stale :
      (seen : e.Store) (k value : String) (revision : ℕ)
      → IsOurs base k
      → is_target t k ≡ false
      → e.found seen k ≡ some (value, revision)
      → Has (record { key = k; value = value; mod_revision = revision }) (stale seen)
  Has-stale seen k value revision (rest, begins) other there = elim begins [
    | inl q ↦ Has-append kv _ _ (
        inl (
          Has-stale_kvs t.value_key kv _
            (λ h. absurd (ground (arith, other, h, eq_iff t.value_key k)))
            ((d.ranges seen (get_config_prefix base) kv).1 ((rest, q), there))))
    | inr (inl q) ↦ Has-append kv (stale_kvs t.value_key _) _ (
        inr (
          Has-append kv _ _ (
            inl (
              Has-stale_hashes t.hash_keys kv _ (ground (arith, other))
                ((d.ranges seen (get_hashes_prefix base) kv).1 ((rest, q), there))))))
    | inr (inr q) ↦ Has-append kv (stale_kvs t.value_key _) _ (
        inr (
          Has-append kv (stale_hashes t.hash_keys _) _ (
            inr (
              Has-stale_kvs t.sig_key kv _
                (λ h. absurd (ground (arith, other, h, eq_iff t.sig_key k)))
                ((d.ranges seen (get_sign_prefix base) kv).1 ((rest, q), there))))))
  ]
    where
      kv : Kv
      kv = record { key = k; value = value; mod_revision = revision }

  -- What is deleted was seen.
  stale-Has :
      (seen : e.Store) (kv : Kv)
      → Has kv (stale seen)
      → IsOurs base kv.key × (e.found seen kv.key ≡ some (kv.value, kv.mod_revision))
  stale-Has seen kv h = elim (append-Has kv (stale_kvs t.value_key _) _ h) [
    | inl a ↦
        let ((rest, q), there) =
          (d.ranges seen (get_config_prefix base) kv).0 (stale_kvs-Has t.value_key kv _ a).0 in
        ((rest, inl q), there)
    | inr b ↦ elim (append-Has kv (stale_hashes t.hash_keys _) _ b) [
      | inl a ↦
          let ((rest, q), there) =
            (d.ranges seen (get_hashes_prefix base) kv).0 (stale_hashes-Has t.hash_keys kv _ a) in
          ((rest, inr (inl q)), there)
      | inr a ↦
          let ((rest, q), there) =
            (d.ranges seen (get_sign_prefix base) kv).0 (stale_kvs-Has t.sig_key kv _ a).0 in
          ((rest, inr (inr q)), there)
    ]
  ]

  module _ (seen now : e.Store) (yes_it : holds e now (map compare_kv (stale seen)) ≡ true) where
    abbrev pub txn : Txn
    txn = exchange_txn base t (stale seen)

    -- What stands under a key after the transaction.
    after-txn :
        (k : String)
        → value_of (e.found (e.commit txn now).0 k)
          ≡ after (puts t) k (after (map delete_kv (stale seen)) k (value_of (e.found now k)))
    unfolding exchange_txn
    after-txn k =
        d.writes txn now k ∙ rw yes_it (after-append (map delete_kv (stale seen)) (puts t) k _)

    gone :
        (k value : String) (revision : ℕ)
        → IsOurs base k
        → is_target t k ≡ false
        → e.found seen k ≡ some (value, revision)
        → (revision_of (e.found now k) ≡ revision) × (e.found (e.commit txn now).0 k ≡ none)
    gone k value revision ours other there =
        let kv : Kv = record { key = k; value = value; mod_revision = revision } in
        let has = Has-stale seen k value revision ours other there in
        (
          holds-Has e now kv _ yes_it has,
          value_of-none _ (
              after-txn k
              ∙ (ap (after (puts t) k) (deleted_Has k kv (stale seen) _ refl has)
                  ∙ after_unwritten (puts t) k none (unwritten_puts t k other))),
        )

    still :
        (k : String)
        → is_target t k ≡ false
        → (IsOurs base k → e.found seen k ≡ none)
        → e.found (e.commit txn now).0 k ≡ e.found now k
    unfolding exchange_txn
    still k other unseen = d.leaves txn now k (
        rw yes_it (
          is_written-deletes k (stale seen) (puts t)
            (λ kv has q.
              let (ours, there) = stale-Has seen kv has in
              let none_there : e.found seen kv.key ≡ none =
                subst (λ x. IsOurs base x → e.found seen x ≡ none) (sym q) unseen ours in
              absurd (ground (arith, there, none_there)))
            (unwritten_puts t k other)))

    pub exchanged : Exchanged e base t seen now ((e.commit txn now).0)
    unfolding target_of
    exchanged = record {
      text_written =
          after-txn (get_config_key base "all")
          ∙ put_text t _ _ refl (sign_no_config base "all" "all")
              (config_no_hash base "all" hashes);
      sig_written =
          after-txn (get_sign_key base "all") ∙ put_sig t _ _ refl (sign_no_hash base "all" hashes);
      removed = gone;
      kept = still;
    }
