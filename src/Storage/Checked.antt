-- ===== src/Storage/Checked.antt =====
-- What `IntegrityEtcdKeyCollector.Collect`, lib/cluster/etcd.go, lets through.
use tt.Prelude.{
  ℕ, String, ◌≡◌, refl, true, false, Option, none, some, List, [], ◌∷◌, arith, Bool-cases, inl, inr,
}
use tt.Texts.{split_slash}
use tt.Collect.{SourceData}
use tt.Storage.{
  CheckFunc, Hashes, fetched, get_config_key, get_hashes_prefix, get_hashes_key, get_sign_key,
}
use tt.Storage.Etcd.{Kv, op_get, op_get_prefix, value_of, Etcd, Documented, point}
use tt.Storage.Signed.{hash_map, check_key, collect_signed_key}
use tt.Storage.HashMap.{get_hash, seen_at, seen_slashed}

abbrev pub unless_slashed : Option (String × String) → Option String → Option String
unless_slashed none value = value
unless_slashed (some _) value = none

-- The hash that is stored for a key under a name, which has no slash.
abbrev pub stored_hash : (e : Etcd) → String → String → e.Store → String → Option String
stored_hash e base key s name =
    unless_slashed (split_slash name) (value_of (e.found s (get_hashes_key base name key)))

-- The stored contents passed the check with the stored signature and the stored hashes.
pub record Checked (e : Etcd) (base key : String) (check : CheckFunc) (s : e.Store)
    (ds : List SourceData) : Type 0 where
  pub text : String
  pub sig : String
  pub hashes : Hashes
  pub text_stored : value_of (e.found s (get_config_key base key)) ≡ some text
  pub sig_stored : value_of (e.found s (get_sign_key base key)) ≡ some sig
  pub hashes_stored : (name : String) → get_hash name hashes ≡ stored_hash e base key s name
  pub passed : check text hashes sig ≡ true
  pub only : ds ≡ record { source = get_config_key base key; value = text; revision = 0 } ∷ []

-- What the collector does with three responses that let it return data.
check_key-passed :
    (check : CheckFunc) (base key : String) (values hashes sigs : List Kv) (ds : List SourceData)
    → check_key check base key values hashes sigs ≡ fetched ds
    → (value : Kv) × (sig : Kv) × (values ≡ value ∷ [])
      × (sigs ≡ sig ∷ [])
      × (check value.value (hash_map base key hashes []) sig.value ≡ true)
      × (ds ≡ record { source = get_config_key base key; value = value.value; revision = 0 } ∷ [])
unfolding check_key
check_key-passed check base key [] hashes sigs ds h = absurd (ground (arith, h))
check_key-passed check base key (_ ∷ _ ∷ _) hashes sigs ds h = absurd (ground (arith, h))
check_key-passed check base key (value ∷ []) [] sigs ds h = absurd (ground (arith, h))
check_key-passed check base key (value ∷ []) (_ ∷ _) [] ds h = absurd (ground (arith, h))
check_key-passed check base key (value ∷ []) (_ ∷ _) (_ ∷ _ ∷ _) ds h = absurd (ground (arith, h))
check_key-passed check base key (value ∷ []) (hash ∷ hashes) (sig ∷ []) ds h =
    elim (Bool-cases (check value.value (hash_map base key (hash ∷ hashes) []) sig.value)) [
      | inl ok ↦ (value, sig, refl, refl, ok, ground (arith, h, ok))
      | inr bad ↦ absurd (ground (arith, h, bad))
    ]

module _ (e : Etcd) (s : e.Store) where
  point_value :
      (k : String) (kv : Kv) (o : Option (String × ℕ))
      → e.found s k ≡ o
      → point e s k ≡ kv ∷ []
      → value_of (e.found s k) ≡ some kv.value
  point_value k kv none q h = absurd (ground (arith, q, h))
  point_value k kv (some (v, n)) q h = ground (arith, q, h)

  module _ (d : Documented e) (base key : String) where
    hashes_stored :
        (name : String) (o : Option (String × String))
        → split_slash name ≡ o
        → get_hash name (hash_map base key (e.range s (get_hashes_prefix base)) [])
          ≡ stored_hash e base key s name
    hashes_stored name none q = rw q (seen_at e d base key s name _ q refl)
    hashes_stored name (some p) q = rw q (seen_slashed e d base key s name p q)

-- Where `IntegrityEtcdKeyCollector.Collect` returns data, they are the contents that are stored under the key, and the
-- `checkFunc` accepted these with the signature that is stored for the key and with a map that has, for every name without a slash,
-- the hash that is stored for the key, and no other name.
pub collect_signed_key-Checked :
    (e : Etcd) (d : Documented e) (base key : String) (check : CheckFunc) (s : e.Store)
    (ds : List SourceData)
    → collect_signed_key e check false base key s ≡ fetched ds
    → Checked e base key check s ds
unfolding collect_signed_key
collect_signed_key-Checked e d base key check s ds h =
    let gets =
      op_get (get_config_key base key)
      ∷ op_get_prefix (get_hashes_prefix base)
      ∷ op_get (get_sign_key base key)
      ∷ [] in
    let replied = d.replies (record { cmps = []; then_ops = gets; else_ops = [] }) s refl in
    let result : check_key check base key (point e s (get_config_key base key))
          (e.range s (get_hashes_prefix base)) (point e s (get_sign_key base key))
        ≡ fetched ds =
      rw replied at h in
    let (value, sig, values, sigs, passed, only) =
      check_key-passed check base key _ _ _ ds result in
    record {
      text = value.value;
      sig = sig.value;
      hashes = hash_map base key (e.range s (get_hashes_prefix base)) [];
      text_stored = point_value e s _ value _ refl values;
      sig_stored = point_value e s _ sig _ refl sigs;
      hashes_stored = λ name. hashes_stored e s d base key name _ refl;
      passed = passed;
      only = only;
    }
