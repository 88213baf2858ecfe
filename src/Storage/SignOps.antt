-- ===== src/Storage/SignOps.antt =====
-- The operations by which `EtcdKeyDataPublisher.Publish`, lib/cluster/etcd.go, signs.
use tt.Prelude.{
  String, ◌<>◌, ◌≡◌, refl, false, Option, none, some, List, [], ◌∷◌, ◌++◌, map, arith, eq_iff,
}
use tt.Storage.Paths.{hashes_not_config, sign_not_config}
use tt.Storage.{
  SignFunc, Hashes, get_config_prefix, get_hashes_key, get_hashes_prefix, get_sign_prefix,
  get_sign_key,
}
use tt.Storage.Etcd.{Op, op_put, op_get, op_get_prefix, op_delete, after, is_written}
use tt.Storage.Signed.{sign_ops}

module _ (base key : String) where
  abbrev pub hash_op : String × String → Op
  hash_op h = op_put (get_hashes_key base h.0 key) h.1

  pub hashes_keep :
      (k : String) (hashes : Hashes) (signature : String)
      → is_written
          (map hash_op hashes ++ op_put (get_sign_key base key) signature ∷ [])
          (get_config_prefix base <> k)
        ≡ false
  unfolding get_sign_key get_hashes_key
  hashes_keep k [] signature =
      let apart = sign_not_config base key k in
      ground (arith, apart, eq_iff (get_sign_prefix base <> key) (get_config_prefix base <> k))
  hashes_keep k ((hash, value) ∷ hashes) signature =
      let apart = hashes_not_config base (hash <> ("/" <> key)) k in
      let ih = hashes_keep k hashes signature in
      ground (
        arith,
        ih,
        apart,
        eq_iff (get_hashes_prefix base <> (hash <> ("/" <> key))) (get_config_prefix base <> k),
      )

  -- Signing writes no key of the configuration.
  pub sign_ops_keep :
      (sign : Option SignFunc) (contents : String) (ops : List Op) (k : String)
      → sign_ops sign base key contents ≡ some ops
      → is_written ops (get_config_prefix base <> k) ≡ false
  unfolding sign_ops
  sign_ops_keep none contents ops k h = ground (arith, h)
  sign_ops_keep (some sign) contents ops k h =
      elim (sign contents)
          as (λ r. sign contents ≡ r → is_written ops (get_config_prefix base <> k) ≡ false) [
            | none ↦ λ q. absurd (ground (arith, h, q))
            | some (hashes, signature) ↦ λ q. ground (arith, h, q, hashes_keep k hashes signature)
          ]
        refl

pub after_unwritten :
    (ops : List Op) (k : String) (old : Option String)
    → is_written ops k ≡ false
    → after ops k old ≡ old
after_unwritten [] k old h = refl
after_unwritten (op_put key value ∷ ops) k old h =
    let ih = after_unwritten ops k old (ground (arith, h)) in ground (arith, h, ih)
after_unwritten (op_delete key ∷ ops) k old h =
    let ih = after_unwritten ops k old (ground (arith, h)) in ground (arith, h, ih)
after_unwritten (op_get key ∷ ops) k old h = after_unwritten ops k old h
after_unwritten (op_get_prefix key ∷ ops) k old h = after_unwritten ops k old h
