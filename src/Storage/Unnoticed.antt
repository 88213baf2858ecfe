-- ===== src/Storage/Unnoticed.antt =====
-- What `TarantoolKeyDataPublisher.Publish`, lib/cluster/tarantool.go, makes of a wrong revision.
use tt.Prelude.{
  ℕ, String, ◌≡◌, ◌≢◌, Bool, true, false, ◌&&◌, Option, none, some, List, [], ◌∷◌, nat_eq,
  nat_eq_iff, arith,
}
use tt.Storage.{SignFunc, get_config_key}
use tt.Storage.Etcd.{revision_of}
use tt.Storage.Tarantool.{
  Connector, Request, Operation, put_path, sign_operations, predicates_of, text_of, publish_txn,
  tarantool_publish_key,
}

module _ (c : Connector) where
  abbrev pub meets : c.Store → List (ℕ × String) → Bool
  meets s [] = true
  meets s ((revision, path) ∷ predicates) =
      nat_eq (revision_of (c.found s path)) revision && meets s predicates

  -- What is documented of a transaction whose predicates do not hold: it changes nothing, and the call
  -- replies as any other.
  pub record Refuses : Type 0 where
    pub keeps :
        (r : Request) (s : c.Store) (k : String)
        → meets s r.predicates ≡ false
        → c.found (c.call_txn r s).0 k ≡ c.found s k
    pub replies :
        (r : Request) (s : c.Store)
        → meets s r.predicates ≡ false
        → (reply : List (List c.Raw)) × ((c.call_txn r s).1 ≡ some reply)

-- Where signing works, the requested revision is not 0 and is not the one of the key, and a transaction whose predicates do not
-- hold changes nothing and replies, `TarantoolKeyDataPublisher.Publish` returns no error although it changes no key.
pub tarantool_publish_key-unnoticed :
    (c : Connector) (d : Refuses c) (sign : Option SignFunc) (base key : String) (revision : ℕ)
    (contents : Option String) (s : c.Store) (ops : List Operation)
    → sign_operations sign base key (text_of contents) ≡ some ops
    → revision ≢ 0
    → revision_of (c.found s (get_config_key base key)) ≢ revision
    → ((tarantool_publish_key c sign base key revision contents s).1 ≡ none)
      × ((k : String)
          → c.found (tarantool_publish_key c sign base key revision contents s).0 k ≡ c.found s k)
unfolding tarantool_publish_key publish_txn
tarantool_publish_key-unnoticed c d sign base key revision contents s ops signed asked differs =
    let request : Request = record {
      predicates = predicates_of revision (get_config_key base key);
      on_success = put_path (get_config_key base key) (text_of contents) ∷ ops;
    } in
    let unmet : meets c s request.predicates ≡ false = ground (
      arith,
      asked,
      differs,
      nat_eq_iff (revision_of (c.found s (get_config_key base key))) revision,
    ) in
    let (reply, replied) = d.replies request s unmet in
    (
      ground (arith, signed, replied),
      λ k. ground (arith, signed, replied, d.keeps request s k unmet),
    )
