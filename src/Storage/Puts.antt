-- ===== src/Storage/Puts.antt =====
-- The operations of the transaction of `IntegrityEtcdAllDataPublisher.Publish`, lib/cluster/etcd.go.
use tt.Prelude.{
  String, ◌<>◌, ◌≡◌, ◌≢◌, refl, ◌∙◌, ◌⊎◌, inl, inr, Bool, true, false, ◌||◌, Option, none, some,
  List, [], ◌∷◌, ◌++◌, map, Has, if◌then◌else◌, ◌==◌, arith, eq_iff, Bool-cases,
}
use tt.Storage.{
  Hashes, get_config_prefix, get_config_key, get_hashes_prefix, get_hashes_key, get_sign_prefix,
  get_sign_key,
}
use tt.Storage.Etcd.{Kv, Op, op_put, op_get, op_get_prefix, op_delete, after, is_written}
use tt.Storage.Publish.{delete_kv}
use tt.Storage.SignOps.{after_unwritten}
use tt.Storage.Paths.{hashes_not_config, sign_not_config, sign_not_hashes}
use tt.Storage.Exchange.{Target, has_key, stale_hashes, put_hash_op}

pub Has-append : (kv : Kv) (xs ys : List Kv) → Has kv xs ⊎ Has kv ys → Has kv (xs ++ ys)
Has-append kv [] ys (inl h) = absurd h
Has-append kv [] ys (inr h) = h
Has-append kv (x ∷ xs) ys (inl (inl e)) = inl e
Has-append kv (x ∷ xs) ys (inl (inr h)) = inr (Has-append kv xs ys (inl h))
Has-append kv (x ∷ xs) ys (inr h) = inr (Has-append kv xs ys (inr h))

pub Has-stale_hashes :
    (hash_keys : Hashes) (kv : Kv) (l : List Kv)
    → has_key kv.key hash_keys ≡ false
    → Has kv l
    → Has kv (stale_hashes hash_keys l)
unfolding stale_hashes
Has-stale_hashes hash_keys kv [] d h = absurd h
Has-stale_hashes hash_keys kv (x ∷ l) d (inl e) = ground (arith, d, e)
Has-stale_hashes hash_keys kv (x ∷ l) d (inr h) =
    let rest = Has-stale_hashes hash_keys kv l d h in
    elim (Bool-cases (has_key x.key hash_keys)) [
      | inl same ↦ ground (arith, same, rest)
      | inr other ↦ ground (arith, other, rest)
    ]

pub append-Has : (kv : Kv) (xs ys : List Kv) → Has kv (xs ++ ys) → Has kv xs ⊎ Has kv ys
append-Has kv [] ys h = inr h
append-Has kv (x ∷ xs) ys (inl e) = inl (inl e)
append-Has kv (x ∷ xs) ys (inr h) = elim (append-Has kv xs ys h) [
  | inl k ↦ inl (inr k)
  | inr k ↦ inr k
]

pub stale_hashes-Has :
    (hash_keys : Hashes) (kv : Kv) (l : List Kv) → Has kv (stale_hashes hash_keys l) → Has kv l
unfolding stale_hashes
stale_hashes-Has hash_keys kv [] h = h
stale_hashes-Has hash_keys kv (x ∷ l) h = elim (Bool-cases (has_key x.key hash_keys)) [
  | inl same ↦ inr (stale_hashes-Has hash_keys kv l (ground (arith, h, same)))
  | inr other ↦ elim (first other) [
    | inl e ↦ inl e
    | inr k ↦ inr (stale_hashes-Has hash_keys kv l k)
  ]
]
  where
    first : has_key x.key hash_keys ≡ false → (kv ≡ x) ⊎ Has kv (stale_hashes hash_keys l)
    first other = ground (arith, h, other)

-- The deletions write no other key.
pub is_written-deletes :
    (k : String) (l : List Kv) (ops : List Op)
    → ((kv : Kv) → Has kv l → kv.key ≢ k)
    → is_written ops k ≡ false
    → is_written (map delete_kv l ++ ops) k ≡ false
is_written-deletes k [] ops apart h = h
is_written-deletes k (x ∷ l) ops apart h =
    let ih = is_written-deletes k l ops (λ kv has. apart kv (inr has)) h in
    ground (arith, ih, apart x (inl refl), eq_iff x.key k)

pub after-append :
    (xs ys : List Op) (k : String) (old : Option String)
    → after (xs ++ ys) k old ≡ after ys k (after xs k old)
after-append [] ys k old = refl
after-append (op_put key value ∷ xs) ys k old =
    after-append xs ys k (if key == k then some value else old)
after-append (op_delete key ∷ xs) ys k old = after-append xs ys k (if key == k then none else old)
after-append (op_get key ∷ xs) ys k old = after-append xs ys k old
after-append (op_get_prefix key ∷ xs) ys k old = after-append xs ys k old

deleted_none : (k : String) (l : List Kv) → after (map delete_kv l) k none ≡ none
deleted_none k [] = refl
deleted_none k (x ∷ l) = elim (Bool-cases (x.key == k)) [
  | inl same ↦ rw same (deleted_none k l)
  | inr other ↦ rw other (deleted_none k l)
]

pub deleted_Has :
    (k : String) (kv : Kv) (l : List Kv) (old : Option String)
    → kv.key ≡ k
    → Has kv l
    → after (map delete_kv l) k old ≡ none
deleted_Has k kv [] old e h = absurd h
deleted_Has k kv (x ∷ l) old e (inl q) =
    let same : (x.key == k) ≡ true = ground (arith, e, q, eq_iff x.key k) in
    rw same (deleted_none k l)
deleted_Has k kv (x ∷ l) old e (inr h) = deleted_Has k kv l (if x.key == k then none else old) e h

unwritten_hashes :
    (k : String) (hash_keys : Hashes)
    → has_key k hash_keys ≡ false
    → is_written (map put_hash_op hash_keys) k ≡ false
unwritten_hashes k [] h = refl
unwritten_hashes k ((key, value) ∷ hash_keys) h =
    let ih = unwritten_hashes k hash_keys (ground (arith, h)) in
    ground (arith, h, ih, eq_iff key k, eq_iff k key)

-- The keys that are written.
abbrev pub is_target : Target → String → Bool
is_target t k = t.value_key == k || (t.sig_key == k || has_key k t.hash_keys)

abbrev pub puts : Target → List Op
puts t = op_put t.value_key t.text ∷ op_put t.sig_key t.sig ∷ map put_hash_op t.hash_keys

pub unwritten_puts :
    (t : Target) (k : String) → is_target t k ≡ false → is_written (puts t) k ≡ false
unwritten_puts t k h = ground (arith, h, unwritten_hashes k t.hash_keys)

module _ (base : String) where
  pub config_no_hash :
      (key : String) (hashes : Hashes)
      → has_key
          (get_config_key base key)
          (map (λ (h : String × String). (get_hashes_key base h.0 "all", h.1)) hashes)
        ≡ false
  unfolding get_config_key get_hashes_key
  config_no_hash key [] = refl
  config_no_hash key ((hash, value) ∷ hashes) =
      let apart = hashes_not_config base (hash <> ("/" <> "all")) key in
      let ih = config_no_hash key hashes in
      ground (
        arith,
        ih,
        apart,
        eq_iff (get_config_prefix base <> key) (get_hashes_prefix base <> (hash <> ("/" <> "all"))),
      )

  pub sign_no_hash :
      (key : String) (hashes : Hashes)
      → has_key
          (get_sign_key base key)
          (map (λ (h : String × String). (get_hashes_key base h.0 "all", h.1)) hashes)
        ≡ false
  unfolding get_sign_key get_hashes_key
  sign_no_hash key [] = refl
  sign_no_hash key ((hash, value) ∷ hashes) =
      let apart = sign_not_hashes base key (hash <> ("/" <> "all")) in
      let ih = sign_no_hash key hashes in
      ground (
        arith,
        ih,
        apart,
        eq_iff (get_sign_prefix base <> key) (get_hashes_prefix base <> (hash <> ("/" <> "all"))),
      )

  pub sign_no_config : (a b : String) → (get_sign_key base a == get_config_key base b) ≡ false
  unfolding get_sign_key get_config_key
  sign_no_config a b =
      let apart = sign_not_config base a b in
      ground (arith, apart, eq_iff (get_sign_prefix base <> a) (get_config_prefix base <> b))

pub put_text :
    (t : Target) (k : String) (old : Option String)
    → t.value_key ≡ k
    → (t.sig_key == k) ≡ false
    → has_key k t.hash_keys ≡ false
    → after (puts t) k old ≡ some t.text
put_text t k old e apart others =
    let same : (t.value_key == k) ≡ true = (eq_iff t.value_key k).1 e in
    after_unwritten (map put_hash_op t.hash_keys) k _ (unwritten_hashes k t.hash_keys others)
    ∙ ground (arith, same, apart)

pub put_sig :
    (t : Target) (k : String) (old : Option String)
    → t.sig_key ≡ k
    → has_key k t.hash_keys ≡ false
    → after (puts t) k old ≡ some t.sig
put_sig t k old e others =
    let same : (t.sig_key == k) ≡ true = (eq_iff t.sig_key k).1 e in
    after_unwritten (map put_hash_op t.hash_keys) k _ (unwritten_hashes k t.hash_keys others)
    ∙ ground (arith, same)
