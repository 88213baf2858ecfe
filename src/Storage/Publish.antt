-- ===== src/Storage/Publish.antt =====
-- The collectors and publishers of lib/cluster/etcd.go.
use tt.Prelude.{
  ℕ, String, ◌<>◌, Bool, true, false, Option, none, some, List, [], ◌∷◌, ◌++◌, map, if◌then◌else◌,
  nat_eq, ◌==◌,
}
use tt.Collect.{SourceData}
use tt.Storage.{
  StorageError, revision_not_supported, no_data, fetch_failed, put_failed, not_found,
  too_many_responses, deadline_exceeded, Fetched, fetched, failed, get_config_prefix,
}
use tt.Storage.Etcd.{Etcd, Kv, Op, op_delete, op_put, Compare, Txn, point}

abbrev pub data_of : Kv → SourceData
data_of kv = record { source = kv.key; value = kv.value; revision = kv.mod_revision }

-- The keys to delete, with their revisions: all but the target.
unfoldable pub stale_kvs : String → List Kv → List Kv
stale_kvs key [] = []
stale_kvs key (kv ∷ kvs) = if kv.key == key then stale_kvs key kvs else kv ∷ stale_kvs key kvs

abbrev pub compare_kv : Kv → Compare
compare_kv kv = record { key = kv.key; revision = kv.mod_revision }

abbrev pub delete_kv : Kv → Op
delete_kv kv = op_delete kv.key

-- The transaction of a round of `EtcdAllDataPublisher.Publish`.
unfoldable pub all_txn : String → String → List Kv → Txn
all_txn key contents kvs = record {
  cmps = map compare_kv (stale_kvs key kvs);
  then_ops = map delete_kv (stale_kvs key kvs) ++ op_put key contents ∷ [];
  else_ops = [];
}

-- What other clients do before the Get of a round and between its Get and its transaction, and which
-- of the two calls fail before they reach the server.
pub record Round (Store : Type 0) : Type 0 where
  pub before : Store → Store
  pub get_fails : Bool
  pub between : Store → Store
  pub commit_fails : Bool

module _ (e : Etcd) where
  -- `EtcdAllCollector.Collect`; `get_fails` is the error of the call.
  unfoldable pub collect_all : Bool → String → e.Store → Fetched (List SourceData)
  collect_all get_fails base s =
      if get_fails then failed fetch_failed else elim (e.range s (get_config_prefix base)) [
        | [] ↦ failed not_found
        | kv ∷ kvs ↦ fetched (map data_of (kv ∷ kvs))
      ]

  -- `EtcdKeyCollector.Collect`
  unfoldable pub collect_key : Bool → String → String → e.Store → Fetched (List SourceData)
  collect_key get_fails base key s =
      if get_fails then failed fetch_failed else elim (point e s (get_config_prefix base <> key)) [
        | [] ↦ failed not_found
        | kv ∷ rest ↦ elim rest [
          | [] ↦ fetched (data_of kv ∷ [])
          | _ ∷ _ ↦ failed too_many_responses
        ]
      ]

  -- The loop of `EtcdAllDataPublisher.Publish`. The rounds are those that begin before the context
  -- is done.
  unfoldable pub publish_rounds :
      String → String → String → List (Round e.Store) → e.Store → e.Store × Option StorageError
  publish_rounds prefix key contents [] s = (s, some deadline_exceeded)
  publish_rounds prefix key contents (r ∷ rounds) s =
      let seen = r.before s in
      let now = r.between seen in
      let (next, response) = e.commit (all_txn key contents (e.range seen prefix)) now in
      if r.get_fails
      then (seen, some fetch_failed)
      else if r.commit_fails
      then (now, some put_failed)
      else elim (response.succeeded) [
        | true ↦ (next, none)
        | false ↦ publish_rounds prefix key contents rounds next
      ]

  -- `EtcdAllDataPublisher.Publish`
  unfoldable pub publish_all :
      String → ℕ → Option String → List (Round e.Store) → e.Store → e.Store × Option StorageError
  unfolding publish_rounds
  publish_all base revision contents rounds s =
      if nat_eq revision 0
      then elim contents [
        | none ↦ (s, some no_data)
        | some text ↦
            publish_rounds (get_config_prefix base) (get_config_prefix base <> "all") text rounds s
      ]
      else (s, some revision_not_supported)
