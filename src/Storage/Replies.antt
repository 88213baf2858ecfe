-- ===== src/Storage/Replies.antt =====
-- What the collectors of lib/cluster/tarantool.go read out of the replies.
use tt.Prelude.{String, Option, none, some, List, [], ◌∷◌, ◌++◌, if◌then◌else◌, ◌==◌}
use tt.Texts.{cut_prefix}
use tt.Collect.{SourceData}
use tt.Storage.{
  not_found, check_failed, Fetched, fetched, failed, CheckFunc, get_config_prefix, get_config_key,
  get_sign_key, get_sign_prefix, parse_hash_path,
}
use tt.Storage.Etcd.{Kv}
use tt.Storage.Signed.{ValueNode, Nodes, get_node, put_node, put_hash, add_path, node_of}

-- What one path of a reply adds to the nodes of `IntegrityTarantoolAllCollector.Collect`.
pub data Update : Type 0 where
  update_value update_sig : String → Update
  update_hash : String → String → Update

unfoldable pub read_update : String → Kv → Option (String × Update)
read_update base kv = elim (cut_prefix (get_config_prefix base) kv.key) [
  | some key ↦ some (key, update_value kv.value)
  | none ↦ elim (parse_hash_path kv.key base) [
    | some (hash, key) ↦ some (key, update_hash hash kv.value)
    | none ↦ elim (cut_prefix (get_sign_prefix base) kv.key) [
      | some key ↦ some (key, update_sig kv.value)
      | none ↦ none
    ]
  ]
]

-- An empty value or signature does not replace one.
unfoldable pub update_node : Update → ValueNode → ValueNode
update_node (update_value value) node = if value == "" then node else record node { value = value }
update_node (update_sig sig) node = if sig == "" then node else record node { sig = sig }
update_node (update_hash hash value) node = record node { hashes = put_hash hash value node.hashes }

unfoldable pub add_update : Option (String × Update) → List String × Nodes → List String × Nodes
add_update none (keys, nodes) = (keys, nodes)
add_update (some (key, update)) (keys, nodes) = elim (get_node key nodes) [
  | some node ↦ (keys, put_node key (update_node update node) nodes)
  | none ↦ (keys ++ key ∷ [], put_node key (update_node update (node_of none)) nodes)
]

unfoldable pub add_updates : String → List Kv → List String × Nodes → List String × Nodes
add_updates base [] seen = seen
add_updates base (kv ∷ kvs) seen = add_updates base kvs (add_update (read_update base kv) seen)

unfoldable pub add_responses : String → List (List Kv) → List String × Nodes → List String × Nodes
add_responses base [] seen = seen
add_responses base (response ∷ responses) seen =
    add_responses base responses (add_updates base response seen)

-- The loop over the keys: a node without a value is passed over.
unfoldable pub check_values : CheckFunc → String → List String → Nodes → Fetched (List SourceData)
check_values check base [] nodes = fetched []
check_values check base (key ∷ keys) nodes =
    let node = node_of (get_node key nodes) in
    let rest = check_values check base keys nodes in
    if node.value == ""
    then rest
    else if check node.value node.hashes node.sig
    then elim rest [
      | failed error ↦ failed error
      | fetched data_list ↦ fetched (
          record { source = get_config_key base key; value = node.value; revision = 0 } ∷ data_list)
    ]
    else failed (check_failed (get_config_key base key))

-- The loop of `IntegrityTarantoolKeyCollector.Collect`.
unfoldable pub read_key : String → String → List Kv → ValueNode → ValueNode
read_key base key [] node = node
read_key base key (kv ∷ kvs) node = read_key base key kvs (
    if kv.key == get_config_key base key
    then record node { value = kv.value }
    else if kv.key == get_sign_key base key
    then record node { sig = kv.value }
    else record node { hashes = add_path (parse_hash_path kv.key base) key kv.value node.hashes })

unfoldable pub read_key_responses : String → String → List (List Kv) → ValueNode → ValueNode
read_key_responses base key [] node = node
read_key_responses base key (response ∷ responses) node =
    read_key_responses base key responses (read_key base key response node)

unfoldable pub check_value : CheckFunc → String → String → ValueNode → Fetched (List SourceData)
check_value check base key node =
    if node.value == ""
    then failed not_found
    else if check node.value node.hashes node.sig
    then fetched
        (record { source = get_config_key base key; value = node.value; revision = 0 } ∷ [])
    else failed (check_failed (get_config_key base key))
