-- ===== src/Tests/EtcdServer.antt =====
-- A server that keeps a log of its writes, an instance of the client of etcd.
use tt.Prelude.{
  ℕ, suc, String, ◌<>◌, ◌≡◌, refl, ap, ◌∙◌, ◌≢◌, ◌⊎◌, inl, inr, true, false, Option, none, some,
  List, [], ◌∷◌, map, length, All, Has, Has-All, All-Has, if◌then◌else◌, ◌==◌, arith, eq_iff,
  Bool-cases,
}
use tt.Texts.{cut_prefix, cut_prefix-append, append-cut_prefix}
use tt.Storage.Etcd.{
  Kv, Op, op_get, op_get_prefix, op_put, op_delete, value_of, after, is_written, Etcd, holds,
  chosen, reply, Documented, IsDistinct,
}
use tt.Storage.Publish.{stale_kvs}
use tt.Storage.Cas.{stale_kvs-Has, Has-stale_kvs}

-- A write of a key; a deletion has no value.
pub record Entry : Type 0 where
  pub key : String
  pub value : Option String
  pub revision : ℕ

abbrev pub Log : Type 0
Log = List Entry

abbrev pub entry_found : Entry → Option (String × ℕ)
entry_found x = elim (x.value) [ none ↦ none | some value ↦ some (value, x.revision) ]

unfoldable pub log_found : Log → String → Option (String × ℕ)
log_found [] k = none
log_found (x ∷ s) k = if x.key == k then entry_found x else log_found s k

abbrev pub add_entry : Option (String × ℕ) → Option String → String → List Kv → List Kv
add_entry (some (value, revision)) (some rest) key kvs =
    record { key = key; value = value; mod_revision = revision } ∷ kvs
add_entry (some _) none key kvs = kvs
add_entry none _ key kvs = kvs

unfoldable pub log_range : Log → String → List Kv
log_range [] prefix = []
log_range (x ∷ s) prefix =
    add_entry (entry_found x) (cut_prefix prefix x.key) x.key (stale_kvs x.key (log_range s prefix))

unfoldable pub apply_op : Op → Log → Log
apply_op (op_put key value) s =
    record { key = key; value = some value; revision = suc (length s) } ∷ s
apply_op (op_delete key) s = record { key = key; value = none; revision = suc (length s) } ∷ s
apply_op (op_get key) s = s
apply_op (op_get_prefix key) s = s

unfoldable pub apply_ops : List Op → Log → Log
apply_ops [] s = s
apply_ops (op ∷ ops) s = apply_ops ops (apply_op op s)

abbrev pub reads : Etcd
reads = record {
  Store = Log;
  found = log_found;
  range = log_range;
  commit = λ t s. (s, record { succeeded = true; responses = [] });
}

abbrev pub log_server : Etcd
log_server = record {
  Store = Log;
  found = log_found;
  range = log_range;
  commit = λ t s. (
    apply_ops (chosen reads s t) s,
    record { succeeded = holds reads s t.cmps; responses = map (reply reads s) (chosen reads s t) },
  );
}

Has-add_entry :
    (o : Option (String × ℕ)) (c : Option String) (key : String) (kv : Kv) (kvs : List Kv)
    → Has kv (add_entry o c key kvs)
    → (((rest : String) × (c ≡ some rest))
        × ((o ≡ some (kv.value, kv.mod_revision)) × (kv.key ≡ key)))
      ⊎ Has kv kvs
Has-add_entry (some (value, revision)) (some rest) key kv kvs (inl e) = inl ((rest, refl), (cc, cc))
Has-add_entry (some (value, revision)) (some rest) key kv kvs (inr h) = inr h
Has-add_entry (some _) none key kv kvs h = inr h
Has-add_entry none c key kv kvs h = inr h

add_entry-rest :
    (o : Option (String × ℕ)) (c : Option String) (key : String) (kv : Kv) (kvs : List Kv)
    → Has kv kvs
    → Has kv (add_entry o c key kvs)
add_entry-rest (some _) (some rest) key kv kvs h = inr h
add_entry-rest (some _) none key kv kvs h = h
add_entry-rest none c key kv kvs h = h

log_range-found :
    (s : Log) (prefix : String) (kv : Kv)
    → Has kv (log_range s prefix)
    → ((rest : String) × (kv.key ≡ prefix <> rest))
      × (log_found s kv.key ≡ some (kv.value, kv.mod_revision))
unfolding log_range log_found
log_range-found [] prefix kv h = absurd h
log_range-found (x ∷ s) prefix kv h =
    elim (Has-add_entry (entry_found x) (cut_prefix prefix x.key) x.key kv _ h) [
      | inl ((rest, cut), (there, same)) ↦ (
        (rest, same ∙ append-cut_prefix prefix x.key rest cut),
        ground (arith, there, same, eq_iff x.key kv.key),
      )
      | inr old ↦
          let (has, other) = stale_kvs-Has x.key kv (log_range s prefix) old in
          let (begins, there) = log_range-found s prefix kv has in
          (begins, ground (arith, there, other, eq_iff x.key kv.key))
    ]

found-log_range :
    (s : Log) (prefix : String) (kv : Kv) (rest : String)
    → kv.key ≡ prefix <> rest
    → log_found s kv.key ≡ some (kv.value, kv.mod_revision)
    → Has kv (log_range s prefix)
unfolding log_range log_found
found-log_range [] prefix kv rest begins h = absurd (ground (arith, h))
found-log_range (x ∷ s) prefix kv rest begins h = elim (Bool-cases (x.key == kv.key)) [
  | inl same ↦
      let q : x.key ≡ kv.key = (eq_iff x.key kv.key).0 same in
      let there : entry_found x ≡ some (kv.value, kv.mod_revision) = ground (arith, h, same) in
      let cut : cut_prefix prefix x.key ≡ some rest =
        ap (cut_prefix prefix) (q ∙ begins) ∙ cut_prefix-append prefix rest in
      rw (there, cut) (inl (ground (arith, q)))
  | inr other ↦
      let q : kv.key ≢ x.key = λ e. absurd (ground (arith, other, e, eq_iff x.key kv.key)) in
      let has = found-log_range s prefix kv rest begins (ground (arith, h, other)) in
      add_entry-rest _ _ _ kv _ (Has-stale_kvs x.key kv (log_range s prefix) q has)
]

All-stale_kvs : (P : Kv → Type 0) (key : String) (l : List Kv) → All P l → All P (stale_kvs key l)
All-stale_kvs P key l all = Has-All P _ (λ kv h. All-Has P kv l all (stale_kvs-Has key kv l h).0)

stale_kvs-IsDistinct : (key : String) (l : List Kv) → IsDistinct l → IsDistinct (stale_kvs key l)
unfolding stale_kvs
stale_kvs-IsDistinct key [] h = h
stale_kvs-IsDistinct key (x ∷ l) h =
    let rest = stale_kvs-IsDistinct key l h.1 in
    elim (Bool-cases (x.key == key)) [
      | inl same ↦ rw same rest
      | inr other ↦ rw other (All-stale_kvs (λ (y : Kv). y.key ≢ x.key) key l h.0, rest)
    ]

add_entry-IsDistinct :
    (o : Option (String × ℕ)) (c : Option String) (key : String) (l : List Kv)
    → IsDistinct (stale_kvs key l)
    → IsDistinct (add_entry o c key (stale_kvs key l))
add_entry-IsDistinct (some _) (some rest) key l h =
    (Has-All (λ (y : Kv). y.key ≢ key) _ (λ kv k. (stale_kvs-Has key kv l k).1), h)
add_entry-IsDistinct (some _) none key l h = h
add_entry-IsDistinct none c key l h = h

log_range-IsDistinct : (s : Log) (prefix : String) → IsDistinct (log_range s prefix)
unfolding log_range
log_range-IsDistinct [] prefix = tt
log_range-IsDistinct (x ∷ s) prefix =
    add_entry-IsDistinct _ _ x.key (log_range s prefix)
      (stale_kvs-IsDistinct x.key _ (log_range-IsDistinct s prefix))

apply_ops-writes :
    (ops : List Op) (s : Log) (k : String)
    → value_of (log_found (apply_ops ops s) k) ≡ after ops k (value_of (log_found s k))
unfolding apply_ops apply_op log_found
apply_ops-writes [] s k = refl
apply_ops-writes (op_put key value ∷ ops) s k =
    let ih = apply_ops-writes ops (apply_op (op_put key value) s) k in
    elim (Bool-cases (key == k)) [
      | inl same ↦ ih ∙ ap (after ops k) (ground (arith, same))
      | inr other ↦ ih ∙ ap (after ops k) (ground (arith, other))
    ]
apply_ops-writes (op_delete key ∷ ops) s k =
    let ih = apply_ops-writes ops (apply_op (op_delete key) s) k in
    elim (Bool-cases (key == k)) [
      | inl same ↦ ih ∙ ap (after ops k) (ground (arith, same))
      | inr other ↦ ih ∙ ap (after ops k) (ground (arith, other))
    ]
apply_ops-writes (op_get key ∷ ops) s k = apply_ops-writes ops s k
apply_ops-writes (op_get_prefix key ∷ ops) s k = apply_ops-writes ops s k

apply_ops-leaves :
    (ops : List Op) (s : Log) (k : String)
    → is_written ops k ≡ false
    → log_found (apply_ops ops s) k ≡ log_found s k
unfolding apply_ops apply_op log_found
apply_ops-leaves [] s k h = refl
apply_ops-leaves (op_put key value ∷ ops) s k h =
    let ih = apply_ops-leaves ops (apply_op (op_put key value) s) k (ground (arith, h)) in
    ground (arith, h, ih)
apply_ops-leaves (op_delete key ∷ ops) s k h =
    let ih = apply_ops-leaves ops (apply_op (op_delete key) s) k (ground (arith, h)) in
    ground (arith, h, ih)
apply_ops-leaves (op_get key ∷ ops) s k h = apply_ops-leaves ops s k h
apply_ops-leaves (op_get_prefix key ∷ ops) s k h = apply_ops-leaves ops s k h

pub log_server-Documented : Documented log_server
log_server-Documented = record {
  ranges = λ s prefix kv.
      (log_range-found s prefix kv, λ h. found-log_range s prefix kv h.0.0 h.0.1 h.1);
  distinct = log_range-IsDistinct;
  decides = λ t s. refl;
  writes = λ t s k. apply_ops-writes (chosen reads s t) s k;
  leaves = λ t s k h. apply_ops-leaves (chosen reads s t) s k h;
  replies = λ t s h. refl;
}
