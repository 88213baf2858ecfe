-- ===== src/Storage/Tarantool.antt =====
-- The collectors and publishers of lib/cluster/tarantool.go over the configuration storage of Tarantool.
use tt.Prelude.{
  ℕ, String, ◌<>◌, Option, none, some, List, [], ◌∷◌, ◌++◌, map, if◌then◌else◌, nat_eq,
}
use tt.Collect.{SourceData}
use tt.Storage.{
  StorageError, revision_not_supported, fetch_failed, put_failed, not_found, too_many_responses,
  sign_failed, unexpected_response, Fetched, fetched, failed, SignFunc, CheckFunc,
  get_config_prefix, get_config_key, get_hashes_key, get_sign_key, get_hashes_prefix,
  get_sign_prefix,
}
use tt.Storage.Etcd.{Kv}
use tt.Storage.Signed.{node_of}
use tt.Storage.Replies.{add_responses, check_values, read_key_responses, check_value}

-- An operation of `config.storage.txn`.
pub data Operation : Type 0 where
  get_path delete_path : String → Operation
  put_path : String → String → Operation

-- The argument of `config.storage.txn`; the predicates compare a revision with that of a path.
pub record Request : Type 0 where
  pub predicates : List (ℕ × String)
  pub on_success : List Operation

-- A connector: the calls, none where one fails, with the replies as they come, and the decoding of a reply by
-- mapstructure. The first part of a decoded transaction is `is_success`.
pub record Connector : Type 1 where
  pub Store : Type 0
  pub Raw : Type 0
  pub found : Store → String → Option (String × ℕ)
  pub call_get : String → Store → Option (List (List Raw))
  pub call_txn : Request → Store → Store × Option (List (List Raw))
  pub decode_get : Raw → Option (List Kv)
  pub decode_txn : Raw → Option (List (List Kv))

-- `len(data) != 1 || len(data[0]) == 0`
unfoldable pub first_reply {ℓ} : {A : Type ℓ} → List (List A) → Option A
first_reply ((reply ∷ _) ∷ []) = some reply
first_reply _ = none

-- The hashes and the signature of `TarantoolKeyDataPublisher.Publish`.
unfoldable pub sign_operations :
    Option SignFunc → String → String → String → Option (List Operation)
sign_operations none base key contents = some []
sign_operations (some sign) base key contents = elim (sign contents) [
  | none ↦ none
  | some (hashes, signature) ↦ some (
      map (λ (h : String × String). put_path (get_hashes_key base h.0 key) h.1) hashes
      ++ put_path (get_sign_key base key) signature ∷ [])
]

-- Those of `TarantoolAllDataPublisher.Publish`.
unfoldable pub sign_all_operations : Option SignFunc → String → String → Option (List Operation)
sign_all_operations none base contents = some []
sign_all_operations (some sign) base contents = elim (sign contents) [
  | none ↦ none
  | some (hashes, signature) ↦ some (
      delete_path (get_hashes_prefix base)
      ∷ (map (λ (h : String × String). put_path (get_hashes_key base h.0 "all") h.1) hashes
          ++ delete_path (get_sign_prefix base)
            ∷ put_path (get_sign_key base "all") signature
            ∷ []))
]

abbrev pub predicates_of : ℕ → String → List (ℕ × String)
predicates_of revision key = if nat_eq revision 0 then [] else (revision, key) ∷ []

abbrev pub text_of : Option String → String
text_of none = ""
text_of (some text) = text

module _ (c : Connector) where
  -- `tarantoolGet`
  unfoldable pub tarantool_get : String → c.Store → Fetched (List Kv)
  tarantool_get path s = elim (c.call_get path s) [
    | none ↦ failed fetch_failed
    | some replies ↦ elim (first_reply replies) [
      | none ↦ failed unexpected_response
      | some raw ↦ elim (c.decode_get raw) [
        | none ↦ failed unexpected_response
        | some kvs ↦ fetched kvs
      ]
    ]
  ]

  -- `tarantoolTxnGet`
  unfoldable pub tarantool_txn_get : List String → c.Store → Fetched (List (List Kv))
  tarantool_txn_get paths s =
      let request : Request = record { predicates = []; on_success = map get_path paths } in
      elim (c.call_txn request s).1 [
        | none ↦ failed fetch_failed
        | some replies ↦ elim (first_reply replies) [
          | none ↦ failed unexpected_response
          | some raw ↦ elim (c.decode_txn raw) [
            | none ↦ failed unexpected_response
            | some responses ↦ elim responses [
              | [] ↦ failed unexpected_response
              | response ∷ rest ↦ fetched (response ∷ rest)
            ]
          ]
        ]
      ]

  -- `TarantoolAllCollector.Collect`
  unfoldable pub tarantool_collect_all : String → c.Store → Fetched (List SourceData)
  tarantool_collect_all base s = elim (tarantool_get (get_config_prefix base) s) [
    | failed error ↦ failed error
    | fetched kvs ↦ elim kvs [
      | [] ↦ failed not_found
      | kv ∷ rest ↦ fetched (
          map (λ (x : Kv). record { source = x.key; value = x.value; revision = x.mod_revision })
            (kv ∷ rest))
    ]
  ]

  -- `TarantoolKeyCollector.Collect`
  unfoldable pub tarantool_collect_key : String → String → c.Store → Fetched (List SourceData)
  tarantool_collect_key base key s = elim (tarantool_get (get_config_prefix base <> key) s) [
    | failed error ↦ failed error
    | fetched kvs ↦ elim kvs [
      | [] ↦ failed not_found
      | kv ∷ rest ↦ elim rest [
        | [] ↦ fetched (
            record {
              source = get_config_prefix base <> key;
              value = kv.value;
              revision = kv.mod_revision;
            }
            ∷ [])
        | _ ∷ _ ↦ failed too_many_responses
      ]
    ]
  ]

  -- `IntegrityTarantoolAllCollector.Collect`
  unfoldable pub tarantool_collect_signed : CheckFunc → String → c.Store → Fetched (List SourceData)
  tarantool_collect_signed check base s =
      elim (tarantool_txn_get
        (get_config_prefix base ∷ get_hashes_prefix base ∷ get_sign_prefix base ∷ []) s) [
          | failed error ↦ failed error
          | fetched responses ↦
              let (keys, nodes) = add_responses base responses ([], []) in
              check_values check base keys nodes
        ]

  -- `IntegrityTarantoolKeyCollector.Collect`
  unfoldable pub tarantool_collect_signed_key :
      CheckFunc → String → String → c.Store → Fetched (List SourceData)
  tarantool_collect_signed_key check base key s =
      elim (tarantool_txn_get
        (get_config_key base key ∷ get_hashes_prefix base ∷ get_sign_key base key ∷ []) s) [
          | failed error ↦ failed error
          | fetched responses ↦
              check_value check base key (read_key_responses base key responses (node_of none))
        ]

  -- The call that both publishers end with. What the reply says is not looked at.
  unfoldable pub publish_txn : Request → c.Store → c.Store × Option StorageError
  publish_txn request s =
      let (next, reply) = c.call_txn request s in
      elim reply [ none ↦ (next, some put_failed) | some _ ↦ (next, none) ]

  -- `TarantoolAllDataPublisher.Publish`; no contents are put as the empty text.
  unfoldable pub tarantool_publish_all :
      Option SignFunc → String → ℕ → Option String → c.Store → c.Store × Option StorageError
  unfolding publish_txn
  tarantool_publish_all sign base revision contents s =
      if nat_eq revision 0
      then elim (sign_all_operations sign base (text_of contents)) [
        | none ↦ (s, some sign_failed)
        | some signed ↦
            publish_txn
              (record {
                predicates = [];
                on_success =
                    delete_path (get_config_prefix base)
                    ∷ put_path (get_config_key base "all") (text_of contents)
                    ∷ signed;
              })
              s
      ]
      else (s, some revision_not_supported)

  -- `TarantoolKeyDataPublisher.Publish`
  unfoldable pub tarantool_publish_key :
      Option SignFunc
      → String
      → String
      → ℕ
      → Option String
      → c.Store
      → c.Store × Option StorageError
  unfolding publish_txn
  tarantool_publish_key sign base key revision contents s =
      elim (sign_operations sign base key (text_of contents)) [
        | none ↦ (s, some sign_failed)
        | some signed ↦
            publish_txn
              (record {
                predicates = predicates_of revision (get_config_key base key);
                on_success = put_path (get_config_key base key) (text_of contents) ∷ signed;
              })
              s
      ]
