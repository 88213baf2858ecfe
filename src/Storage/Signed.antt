-- ===== src/Storage/Signed.antt =====
-- The publishers and collectors of lib/cluster/etcd.go that sign and check their data.
use tt.Prelude.{
  ℕ, String, ◌<>◌, Bool, Option, none, some, List, [], ◌∷◌, ◌++◌, map, if◌then◌else◌, nat_eq, ◌==◌,
}
use tt.Texts.{cut_prefix}
use tt.Collect.{SourceData}
use tt.Storage.{
  StorageError, no_data, fetch_failed, put_failed, not_found, too_many_responses, sign_failed,
  wrong_revision, Fetched, fetched, failed, SignFunc, CheckFunc, Hashes, get_config_prefix,
  get_config_key, get_hashes_key, get_sign_key, get_hashes_prefix, get_sign_prefix, parse_hash_path,
  missing_responses, no_hashes, no_signature, too_many_signatures, check_failed, missing_signature,
}
use tt.Storage.Etcd.{Etcd, Kv, Op, op_get, op_get_prefix, op_put, Compare, Txn}

-- The hashes and the signature of `EtcdKeyDataPublisher.Publish`, where there is a `signFunc`.
unfoldable pub sign_ops : Option SignFunc → String → String → String → Option (List Op)
sign_ops none base key contents = some []
sign_ops (some sign) base key contents = elim (sign contents) [
  | none ↦ none
  | some (hashes, signature) ↦ some (
      map (λ (h : String × String). op_put (get_hashes_key base h.0 key) h.1) hashes
      ++ op_put (get_sign_key base key) signature ∷ [])
]

abbrev pub guard : ℕ → String → List Compare
guard revision key =
    if nat_eq revision 0 then [] else record { key = key; revision = revision } ∷ []

unfoldable pub key_txn : String → ℕ → String → List Op → Txn
key_txn key revision contents signed = record {
  cmps = guard revision key;
  then_ops = op_put key contents ∷ signed;
  else_ops = [];
}

-- A map assignment.
unfoldable pub put_hash : String → String → Hashes → Hashes
put_hash hash value [] = (hash, value) ∷ []
put_hash hash value ((other, old) ∷ hashes) =
    if other == hash then (hash, value) ∷ hashes else (other, old) ∷ put_hash hash value hashes

-- A hash goes into the map where its path is that of a hash of the key.
unfoldable pub add_path : Option (String × String) → String → String → Hashes → Hashes
add_path none key value hashes = hashes
add_path (some (hash, owner)) key value hashes =
    if owner == key then put_hash hash value hashes else hashes

unfoldable pub hash_map : String → String → List Kv → Hashes → Hashes
hash_map base key [] hashes = hashes
hash_map base key (kv ∷ kvs) hashes =
    hash_map base key kvs (add_path (parse_hash_path kv.key base) key kv.value hashes)

-- `IntegrityEtcdKeyCollector.Collect` after the responses have come.
unfoldable pub check_key :
    CheckFunc → String → String → List Kv → List Kv → List Kv → Fetched (List SourceData)
check_key check base key [] hashes sigs = failed not_found
check_key check base key (_ ∷ _ ∷ _) hashes sigs = failed too_many_responses
check_key check base key (value ∷ []) [] sigs = failed no_hashes
check_key check base key (value ∷ []) (_ ∷ _) [] = failed no_signature
check_key check base key (value ∷ []) (_ ∷ _) (_ ∷ _ ∷ _) = failed too_many_signatures
check_key check base key (value ∷ []) (hash ∷ hashes) (sig ∷ []) =
    if check value.value (hash_map base key (hash ∷ hashes) []) sig.value
    then fetched
        (record { source = get_config_key base key; value = value.value; revision = 0 } ∷ [])
    else failed (check_failed (get_config_key base key))

-- A value with the hashes and the signature that stand beside it.
pub record ValueNode : Type 0 where
  pub value : String
  pub hashes : Hashes
  pub sig : String

abbrev pub no_node : ValueNode
no_node = record { value = ""; hashes = []; sig = "" }

abbrev pub Nodes : Type 0
Nodes = List (String × ValueNode)

unfoldable pub get_node : String → Nodes → Option ValueNode
get_node key [] = none
get_node key ((other, node) ∷ nodes) = if other == key then some node else get_node key nodes

unfoldable pub put_node : String → ValueNode → Nodes → Nodes
put_node key node [] = (key, node) ∷ []
put_node key node ((other, old) ∷ nodes) =
    if other == key then (key, node) ∷ nodes else (other, old) ∷ put_node key node nodes

-- The three loops of `IntegrityEtcdAllCollector.Collect` over the responses.
unfoldable pub add_values : String → List Kv → List String → Nodes → List String × Nodes
add_values prefix [] keys nodes = (keys, nodes)
add_values prefix (kv ∷ kvs) keys nodes = elim (cut_prefix prefix kv.key) [
  | none ↦ add_values prefix kvs keys nodes
  | some key ↦
      add_values prefix kvs (keys ++ key ∷ [])
        (put_node key (record { value = kv.value; hashes = []; sig = "" }) nodes)
]

unfoldable pub add_hash : String → String → String → Nodes → Nodes
add_hash hash key value nodes = elim (get_node key nodes) [
  | none ↦ nodes
  | some node ↦ put_node key (record node { hashes = put_hash hash value node.hashes }) nodes
]

unfoldable pub add_hashes : String → List Kv → Nodes → Nodes
add_hashes base [] nodes = nodes
add_hashes base (kv ∷ kvs) nodes = elim (parse_hash_path kv.key base) [
  | none ↦ add_hashes base kvs nodes
  | some (hash, key) ↦ add_hashes base kvs (add_hash hash key kv.value nodes)
]

unfoldable pub add_sig : String → String → Nodes → Nodes
add_sig key value nodes = elim (get_node key nodes) [
  | none ↦ nodes
  | some node ↦ put_node key (record node { sig = value }) nodes
]

unfoldable pub add_sigs : String → List Kv → Nodes → Fetched Nodes
add_sigs base [] nodes = fetched nodes
add_sigs base (kv ∷ kvs) nodes = elim (cut_prefix (get_sign_prefix base) kv.key) [
  | none ↦ failed (missing_signature (get_config_key base kv.key))
  | some key ↦ add_sigs base kvs (add_sig key kv.value nodes)
]

abbrev pub node_of : Option ValueNode → ValueNode
node_of none = no_node
node_of (some node) = node

-- The loop over the keys; a missing node is Go's zero value.
unfoldable pub check_nodes : CheckFunc → String → List String → Nodes → Fetched (List SourceData)
check_nodes check base [] nodes = fetched []
check_nodes check base (key ∷ keys) nodes =
    let node = node_of (get_node key nodes) in
    let rest = check_nodes check base keys nodes in
    if check node.value node.hashes node.sig
    then elim rest [
      | failed error ↦ failed error
      | fetched data_list ↦ fetched (
          record { source = get_config_key base key; value = node.value; revision = 0 } ∷ data_list)
    ]
    else failed (check_failed (get_config_key base key))

unfoldable pub check_all :
    CheckFunc → String → List Kv → List Kv → List Kv → Fetched (List SourceData)
check_all check base values hashes sigs =
    let (keys, nodes) = add_values (get_config_prefix base) values [] [] in
    elim (add_sigs base sigs (add_hashes base hashes nodes)) [
      | failed error ↦ failed error
      | fetched signed ↦ check_nodes check base keys signed
    ]

module _ (e : Etcd) where
  -- `EtcdKeyDataPublisher.Publish`
  unfoldable pub publish_key :
      Option SignFunc
      → Bool
      → String
      → String
      → ℕ
      → Option String
      → e.Store
      → e.Store × Option StorageError
  publish_key sign commit_fails base key revision none s = (s, some no_data)
  publish_key sign commit_fails base key revision (some text) s =
      elim (sign_ops sign base key text) [
        | none ↦ (s, some sign_failed)
        | some signed ↦
            let (next, response) =
              e.commit (key_txn (get_config_prefix base <> key) revision text signed) s in
            if commit_fails
            then (s, some put_failed)
            else if response.succeeded
            then (next, none)
            else (next, some wrong_revision)
      ]

  -- `IntegrityEtcdKeyCollector.Collect`
  unfoldable pub collect_signed_key :
      CheckFunc → Bool → String → String → e.Store → Fetched (List SourceData)
  collect_signed_key check commit_fails base key s =
      let gets =
        op_get (get_config_key base key)
        ∷ op_get_prefix (get_hashes_prefix base)
        ∷ op_get (get_sign_key base key)
        ∷ [] in
      if commit_fails
      then failed fetch_failed
      else elim ((e.commit (record { cmps = []; then_ops = gets; else_ops = [] }) s).1.responses) [
        | values ∷ hashes ∷ sigs ∷ [] ↦ check_key check base key values hashes sigs
        | _ ↦ failed missing_responses
      ]

  -- `IntegrityEtcdAllCollector.Collect`
  unfoldable pub collect_signed : CheckFunc → Bool → String → e.Store → Fetched (List SourceData)
  collect_signed check commit_fails base s =
      let gets =
        op_get_prefix (get_config_prefix base)
        ∷ op_get_prefix (get_hashes_prefix base)
        ∷ op_get_prefix (get_sign_prefix base)
        ∷ [] in
      if commit_fails
      then failed fetch_failed
      else elim ((e.commit (record { cmps = []; then_ops = gets; else_ops = [] }) s).1.responses) [
        | values ∷ hashes ∷ sigs ∷ [] ↦ check_all check base values hashes sigs
        | _ ↦ failed missing_responses
      ]
