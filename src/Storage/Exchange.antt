-- ===== src/Storage/Exchange.antt =====
-- `IntegrityEtcdAllDataPublisher.Publish` of lib/cluster/etcd.go.
use tt.Prelude.{
  ℕ, String, Bool, true, false, ◌||◌, Option, none, some, List, [], ◌∷◌, ◌++◌, map, if◌then◌else◌,
  nat_eq, ◌==◌,
}
use tt.Storage.{
  StorageError, revision_not_supported, no_data, fetch_failed, put_failed, deadline_exceeded,
  sign_failed, missing_responses, SignFunc, Hashes, get_config_prefix, get_config_key,
  get_hashes_key, get_sign_key, get_hashes_prefix, get_sign_prefix,
}
use tt.Storage.Etcd.{Etcd, Kv, Op, op_get_prefix, op_put, Txn}
use tt.Storage.Publish.{compare_kv, delete_kv, stale_kvs}

-- What is to be written: the contents, the hashes with their keys, and the signature.
pub record Target : Type 0 where
  pub value_key : String
  pub text : String
  pub hash_keys : Hashes
  pub sig_key : String
  pub sig : String

unfoldable pub target_of : String → String → Hashes → String → Target
target_of base text hashes sig = record {
  value_key = get_config_key base "all";
  text = text;
  hash_keys = map (λ (h : String × String). (get_hashes_key base h.0 "all", h.1)) hashes;
  sig_key = get_sign_key base "all";
  sig = sig;
}

abbrev pub txn_get_ops : String → List Op
txn_get_ops base =
    op_get_prefix (get_config_prefix base)
    ∷ op_get_prefix (get_hashes_prefix base)
    ∷ op_get_prefix (get_sign_prefix base)
    ∷ []

abbrev pub has_key : String → Hashes → Bool
has_key key [] = false
has_key key ((other, value) ∷ hashes) = key == other || has_key key hashes

unfoldable pub stale_hashes : Hashes → List Kv → List Kv
stale_hashes hash_keys [] = []
stale_hashes hash_keys (kv ∷ kvs) =
    if has_key kv.key hash_keys then stale_hashes hash_keys kvs else kv ∷ stale_hashes hash_keys kvs

-- The keys to delete.
abbrev pub all_stale : Target → List Kv → List Kv → List Kv → List Kv
all_stale t values hashes sigs =
    stale_kvs t.value_key values ++ (stale_hashes t.hash_keys hashes ++ stale_kvs t.sig_key sigs)

abbrev pub put_hash_op : String × String → Op
put_hash_op h = op_put h.0 h.1

unfoldable pub exchange_txn : String → Target → List Kv → Txn
exchange_txn base t stale = record {
  cmps = map compare_kv stale;
  then_ops =
      map delete_kv stale
      ++ (op_put t.value_key t.text ∷ op_put t.sig_key t.sig ∷ map put_hash_op t.hash_keys);
  else_ops = txn_get_ops base;
}

-- What other clients do before the transaction of a round, and whether that fails before it reaches the server.
pub record Attempt (Store : Type 0) : Type 0 where
  pub between : Store → Store
  pub fails : Bool

module _ (e : Etcd) where
  -- The loop; the attempts are those that begin before the context is done.
  unfoldable pub exchange_rounds :
      String
      → Target
      → List (Attempt e.Store)
      → List (List Kv)
      → e.Store
      → e.Store × Option StorageError
  exchange_rounds base t [] responses s = (s, some deadline_exceeded)
  exchange_rounds base t (a ∷ attempts) (values ∷ hashes ∷ sigs ∷ []) s =
      let now = a.between s in
      let (next, response) = e.commit (exchange_txn base t (all_stale t values hashes sigs)) now in
      if a.fails then (now, some put_failed) else elim (response.succeeded) [
        | true ↦ (next, none)
        | false ↦ exchange_rounds base t attempts response.responses next
      ]
  exchange_rounds base t (a ∷ attempts) _ s = (s, some missing_responses)

  -- `IntegrityEtcdAllDataPublisher.Publish`
  unfoldable pub publish_signed :
      SignFunc
      → Bool
      → String
      → ℕ
      → Option String
      → List (Attempt e.Store)
      → e.Store
      → e.Store × Option StorageError
  unfolding exchange_rounds
  publish_signed sign get_fails base revision none attempts s =
      if nat_eq revision 0 then (s, some no_data) else (s, some revision_not_supported)
  publish_signed sign get_fails base revision (some text) attempts s =
      if nat_eq revision 0
      then elim (sign text) [
        | none ↦ (s, some sign_failed)
        | some (hashes, sig) ↦
            let (fetched_from, response) =
              e.commit (record { cmps = []; then_ops = txn_get_ops base; else_ops = [] }) s in
            elim attempts [
              | [] ↦ (s, some deadline_exceeded)
              | a ∷ rest ↦
                  if get_fails
                  then (s, some fetch_failed)
                  else exchange_rounds base (target_of base text hashes sig) (a ∷ rest)
                      response.responses fetched_from
            ]
      ]
      else (s, some revision_not_supported)
