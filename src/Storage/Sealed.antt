-- ===== src/Storage/Sealed.antt =====
-- `EtcdKeyDataPublisher.Publish` with a signature and `IntegrityEtcdKeyCollector.Collect`,
-- lib/cluster/etcd.go, together.
use tt.Prelude.{
  ℕ, String, ◌<>◌, ◌≡◌, refl, sym, ap, ◌∙◌, true, false, Option, none, some, List, [], ◌∷◌, ◌++◌,
  map, Has, ◌==◌, arith, eq_iff, eq_refl, inl, inr,
}
use tt.Texts.{split_slash}
use tt.Storage.{
  SignFunc, CheckFunc, Hashes, get_config_prefix, get_config_key, get_hashes_prefix, get_hashes_key,
  get_sign_key, fetched,
}
use tt.Storage.Etcd.{
  Kv, Op, op_put, op_get, op_get_prefix, value_of, Etcd, Documented, Txn, holds, point,
}
use tt.Storage.Signed.{
  sign_ops, guard, key_txn, hash_map, check_key, publish_key, collect_signed_key,
}
use tt.Storage.Paths.{hashes_not_config}
use tt.Storage.SignOps.{hash_op, hashes_keep}
use tt.Storage.Key.{written, publish_key_step, guard_cases, value_of-some}
use tt.Storage.HashMap.{get_hash, seen_at, seen_slashed}
use tt.Storage.Named.{IsNamed, or_else, get_hash-slashless, after_last, after_hashes}

module _ (e : Etcd) (d : Documented e) (base key : String) (next : e.Store) (hashes : Hashes)
    (named : IsNamed hashes)
    (stored : (name : String)
      → split_slash name ≡ none
      → value_of (e.found next (get_hashes_key base name key)) ≡ get_hash name hashes) where
  abbrev seen : List Kv
  seen = e.range next (get_hashes_prefix base)

  get_hash_slashed :
      (name : String) (p : String × String)
      → split_slash name ≡ some p
      → (o : Option String) → get_hash name hashes ≡ o
      → get_hash name hashes ≡ none
  get_hash_slashed name p slash none q = q
  get_hash_slashed name p slash (some v) q =
      let slashless = get_hash-slashless name v hashes named q in
      absurd (ground (arith, slash, slashless))

  hash_map-agrees :
      (name : String) (o : Option (String × String))
      → split_slash name ≡ o
      → get_hash name (hash_map base key seen []) ≡ get_hash name hashes
  hash_map-agrees name none slashless =
      seen_at e d base key next name _ slashless refl ∙ stored name slashless
  hash_map-agrees name (some p) slash =
      seen_slashed e d base key next name p slash ∙ sym (get_hash_slashed name p slash _ refl)

  point_found :
      (k v : String) (r : ℕ)
      → e.found next k ≡ some (v, r)
      → point e next k ≡ record { key = k; value = v; mod_revision = r } ∷ []
  point_found k v r h = ground (arith, h)

  pub collect_sealed :
      (check : CheckFunc) (text sig : String) (n m : ℕ) (kv : Kv) (kvs : List Kv)
      → e.found next (get_config_key base key) ≡ some (text, n)
      → e.found next (get_sign_key base key) ≡ some (sig, m)
      → seen ≡ kv ∷ kvs
      → ((h : Hashes)
          → ((name : String) → get_hash name h ≡ get_hash name hashes)
          → check text h sig ≡ true)
      → collect_signed_key e check false base key next
        ≡ fetched (record { source = get_config_key base key; value = text; revision = 0 } ∷ [])
  unfolding collect_signed_key check_key
  collect_sealed check text sig n m kv kvs value_there sig_there some_seen accepts =
      let gets =
        op_get (get_config_key base key)
        ∷ op_get_prefix (get_hashes_prefix base)
        ∷ op_get (get_sign_key base key)
        ∷ [] in
      let ok : check text (hash_map base key (kv ∷ kvs) []) sig ≡ true =
        rw (sym some_seen) (accepts _ (λ name. hash_map-agrees name _ refl)) in
      rw
        (
          d.replies (record { cmps = []; then_ops = gets; else_ops = [] }) next refl,
          point_found (get_config_key base key) text n value_there,
          point_found (get_sign_key base key) sig m sig_there,
          some_seen,
          ok,
        )
        refl

abbrev signed_ops : String → String → Hashes → String → List Op
signed_ops base key hashes sig =
    map (hash_op base key) hashes ++ op_put (get_sign_key base key) sig ∷ []

sign_ops_signed :
    (base key text : String) (sign : SignFunc) (hashes : Hashes) (sig : String)
    → sign text ≡ some (hashes, sig)
    → sign_ops (some sign) base key text ≡ some (signed_ops base key hashes sig)
unfolding sign_ops
sign_ops_signed base key text sign hashes sig h = rw h refl

Has-cons : (kv : Kv) (l : List Kv) → Has kv l → (x : Kv) × ((xs : List Kv) × (l ≡ x ∷ xs))
Has-cons kv [] h = absurd h
Has-cons kv (x ∷ xs) h = (x, (xs, refl))

module _ (e : Etcd) (d : Documented e) (base key : String) (revision : ℕ) (text : String)
    (s : e.Store) (hash value : String) (hashes : Hashes) (sig : String)
    (named : IsNamed ((hash, value) ∷ hashes))
    (fresh : (name : String)
      → get_hash name ((hash, value) ∷ hashes) ≡ none
      → e.found s (get_hashes_key base name key) ≡ none) where
  abbrev all_hashes : Hashes
  all_hashes = (hash, value) ∷ hashes

  abbrev txn : Txn
  txn = key_txn (get_config_prefix base <> key) revision text (signed_ops base key all_hashes sig)

  config_apart :
      (name : String) → ((get_config_prefix base <> key) == get_hashes_key base name key) ≡ false
  unfolding get_hashes_key
  config_apart name =
      let differs = hashes_not_config base (name <> ("/" <> key)) key in
      ground (
        arith,
        differs,
        eq_iff (get_config_prefix base <> key) (get_hashes_prefix base <> (name <> ("/" <> key))),
      )

  fresh_or :
      (name : String) (o : Option String)
      → get_hash name all_hashes ≡ o
      → or_else o (value_of (e.found s (get_hashes_key base name key))) ≡ o
  fresh_or name none q = ap value_of (fresh name q)
  fresh_or name (some v) q = refl

  module _ (yes_it : holds e s (guard revision (get_config_prefix base <> key)) ≡ true) where
    stored_hash :
        (name : String)
        → value_of (e.found (e.commit txn s).0 (get_hashes_key base name key))
          ≡ get_hash name all_hashes
    unfolding key_txn
    stored_hash name =
        d.writes txn s (get_hashes_key base name key)
        ∙ (rw (yes_it, config_apart name) (after_hashes base key sig name all_hashes _ named)
            ∙ fresh_or name _ refl)

    stored_sign : value_of (e.found (e.commit txn s).0 (get_sign_key base key)) ≡ some sig
    unfolding key_txn
    stored_sign =
        d.writes txn s (get_sign_key base key)
        ∙ rw yes_it (after_last (map (hash_op base key) all_hashes) (get_sign_key base key) sig _)

    stored_value : value_of (e.found (e.commit txn s).0 (get_config_key base key)) ≡ some text
    unfolding get_config_key
    stored_value =
        written e d base key revision text s (signed_ops base key all_hashes sig)
          (hashes_keep base key key all_hashes sig) yes_it

    sealed_next :
        (check : CheckFunc)
        → ((h : Hashes)
            → ((name : String) → get_hash name h ≡ get_hash name all_hashes)
            → check text h sig ≡ true)
        → collect_signed_key e check false base key (e.commit txn s).0
          ≡ fetched (record { source = get_config_key base key; value = text; revision = 0 } ∷ [])
    unfolding get_hashes_key get_hash
    sealed_next check accepts =
        let next = (e.commit txn s).0 in
        let (n, value_there) = value_of-some _ text stored_value in
        let (m, sign_there) = value_of-some _ sig stored_sign in
        let (k, hash_there) = value_of-some _ value (stored_hash hash ∙ rw (eq_refl hash) refl) in
        let kv : Kv = record {
          key = get_hashes_key base hash key;
          value = value;
          mod_revision = k;
        } in
        let has : Has kv (e.range next (get_hashes_prefix base)) =
          (d.ranges next (get_hashes_prefix base) kv).1
            ((hash <> ("/" <> key), refl), hash_there) in
        let (x, (xs, some_seen)) = Has-cons kv _ has in
        collect_sealed e d base key next all_hashes named (λ name _. stored_hash name) check text
          sig n m x xs value_there sign_there some_seen accepts

-- Let a `signFunc` give a signature and at least one hash, the hashes with different names without a slash; let a
-- `checkFunc` accept the contents with the signature and any map equal to the one of those hashes; and let no other hash of
-- the key be stored before. Where `EtcdKeyDataPublisher.Publish` with the first then returns no error,
-- `IntegrityEtcdKeyCollector.Collect` with the second finds the published contents and nothing else.
pub publish_key-collect_signed_key :
    (e : Etcd) (d : Documented e) (base key : String) (revision : ℕ) (text : String) (s : e.Store)
    (sign : SignFunc) (check : CheckFunc) (hash value : String) (hashes : Hashes) (sig : String)
    → sign text ≡ some ((hash, value) ∷ hashes, sig)
    → IsNamed ((hash, value) ∷ hashes)
    → ((name : String)
        → get_hash name ((hash, value) ∷ hashes) ≡ none
        → e.found s (get_hashes_key base name key) ≡ none)
    → ((h : Hashes)
        → ((name : String) → get_hash name h ≡ get_hash name ((hash, value) ∷ hashes))
        → check text h sig ≡ true)
    → (publish_key e (some sign) false base key revision (some text) s).1 ≡ none
    → collect_signed_key e check false base key
        (publish_key e (some sign) false base key revision (some text) s).0
      ≡ fetched (record { source = get_config_key base key; value = text; revision = 0 } ∷ [])
publish_key-collect_signed_key e d base key revision text s sign check hash value hashes sig signed
      named fresh accepts h =
    let all_hashes : Hashes = (hash, value) ∷ hashes in
    let ops = signed_ops base key all_hashes sig in
    let signs : sign_ops (some sign) base key text ≡ some ops =
      sign_ops_signed base key text sign all_hashes sig signed in
    let step = publish_key_step e d base key revision text s (some sign) ops signs in
    elim (guard_cases e d base key revision text s) [
      | inr (no_it, _) ↦ absurd (ground (arith, h, step, no_it))
      | inl (yes_it, _) ↦ rw step (
          sealed_next e d base key revision text s hash value hashes sig named fresh yes_it check
            accepts)
    ]
