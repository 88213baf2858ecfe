-- ===== src/Storage/HashMap.antt =====
-- The map of hashes that `IntegrityEtcdKeyCollector.Collect`, lib/cluster/etcd.go, fills from the paths
-- of lib/cluster/storages.go.
use tt.Prelude.{
  ℕ, String, ◌<>◌, ◌≡◌, refl, sym, ap, ◌∙◌, ◌≢◌, Option, none, some, List, [], ◌∷◌, Has, All-Has,
  if◌then◌else◌, ◌==◌, arith, eq_iff, Bool-cases, inl, inr, eq_refl,
}
use tt.Texts.{
  cut_prefix, cut_prefix-append, append-cut_prefix, split_slash, split_slash-append,
  split_slash-first,
}
use tt.Storage.{Hashes, get_hashes_prefix, get_hashes_key, parse_hash_path}
use tt.Storage.Etcd.{Kv, IsDistinct, Etcd, Documented, value_of}
use tt.Storage.Signed.{put_hash, hash_map, add_path}

unfoldable pub get_hash : String → Hashes → Option String
get_hash name [] = none
get_hash name ((other, value) ∷ hashes) = if other == name then some value else get_hash name hashes

pub get_hash-put_hash :
    (name hash value : String) (hashes : Hashes)
    → get_hash name (put_hash hash value hashes)
      ≡ (if hash == name then some value else get_hash name hashes)
unfolding get_hash put_hash
get_hash-put_hash name hash value [] = refl
get_hash-put_hash name hash value ((other, old) ∷ hashes) =
    let ih = get_hash-put_hash name hash value hashes in
    ground (arith, ih, eq_iff other hash, eq_iff hash name, eq_iff other name)

pub parse_hash_path-key :
    (base name key : String)
    → split_slash name ≡ none
    → parse_hash_path (get_hashes_key base name key) base ≡ some (name, key)
unfolding parse_hash_path get_hashes_key
parse_hash_path-key base name key h = ground (
  arith,
  cut_prefix-append (get_hashes_prefix base) (name <> ("/" <> key)),
  split_slash-append name key h,
)

pub key-parse_hash_path :
    (base path name key : String) (o : Option String)
    → cut_prefix (get_hashes_prefix base) path ≡ o
    → parse_hash_path path base ≡ some (name, key)
    → (path ≡ get_hashes_key base name key) × (split_slash name ≡ none)
unfolding parse_hash_path get_hashes_key
key-parse_hash_path base path name key none q h = absurd (ground (arith, q, h))
key-parse_hash_path base path name key (some rest) q h =
    let (whole, slashless) = split_slash-first rest name key (ground (arith, q, h)) in
    (
      append-cut_prefix _ path rest q ∙ ap (λ (t : String). get_hashes_prefix base <> t) whole,
      slashless,
    )

get_hash-add_path :
    (o : Option (String × String)) (key name value : String) (hashes : Hashes)
    → o ≢ some (name, key)
    → get_hash name (add_path o key value hashes) ≡ get_hash name hashes
unfolding add_path
get_hash-add_path none key name value hashes differs = refl
get_hash-add_path (some (hash, owner)) key name value hashes differs =
    elim (Bool-cases (owner == key)) [
      | inr other ↦ rw other refl
      | inl same ↦ elim (Bool-cases (hash == name)) [
        | inl same2 ↦ absurd (differs (cc ((eq_iff owner key).0 same, (eq_iff hash name).0 same2)))
        | inr other2 ↦ rw same (get_hash-put_hash name hash value hashes ∙ rw other2 refl)
      ]
    ]

module _ (base key name : String) where
  -- No path among them is the one of this hash.
  pub hash_map-other :
      (kvs : List Kv) (hashes : Hashes)
      → ((kv : Kv) → Has kv kvs → parse_hash_path kv.key base ≢ some (name, key))
      → get_hash name (hash_map base key kvs hashes) ≡ get_hash name hashes
  unfolding hash_map
  hash_map-other [] hashes out = refl
  hash_map-other (x ∷ kvs) hashes out =
      hash_map-other kvs (add_path (parse_hash_path x.key base) key x.value hashes)
        (λ kv h. out kv (inr h))
      ∙ get_hash-add_path _ key name x.value hashes (out x (inl refl))

  pub hash_map-Has :
      (kv : Kv) (kvs : List Kv) (hashes : Hashes)
      → IsDistinct kvs
      → split_slash name ≡ none
      → kv.key ≡ get_hashes_key base name key
      → Has kv kvs
      → get_hash name (hash_map base key kvs hashes) ≡ some kv.value
  unfolding hash_map add_path
  hash_map-Has kv [] hashes distinct slashless path h = absurd h
  hash_map-Has kv (x ∷ kvs) hashes distinct slashless path (inr h) =
      hash_map-Has kv kvs _ distinct.1 slashless path h
  hash_map-Has kv (x ∷ kvs) hashes distinct slashless path (inl e) =
      let here : x.key ≡ get_hashes_key base name key = cc (e, path) in
      let parsed : parse_hash_path x.key base ≡ some (name, key) =
        rw here (parse_hash_path-key base name key slashless) in
      hash_map-other kvs _ (λ y has q.
        All-Has (λ (z : Kv). z.key ≢ x.key) y kvs distinct.0 has
          ((key-parse_hash_path base y.key name key _ refl q).0 ∙ sym here))
      ∙ (rw (parsed, eq_refl key)
          (get_hash-put_hash name name x.value hashes
            ∙ rw (eq_refl name) (ap (λ (v : Kv). some v.value) (sym e))))

-- The map of hashes that stand under a prefix of etcd.
module _ (e : Etcd) (d : Documented e) (base key : String) (next : e.Store) where
  abbrev pub seen : List Kv
  seen = e.range next (get_hashes_prefix base)

  pub seen_at :
      (name : String) (o : Option (String × ℕ))
      → split_slash name ≡ none
      → e.found next (get_hashes_key base name key) ≡ o
      → get_hash name (hash_map base key seen []) ≡ value_of o
  unfolding get_hash get_hashes_key
  seen_at name none slashless q = hash_map-other base key name seen [] (λ kv has parsed.
      let path = (key-parse_hash_path base kv.key name key _ refl parsed).0 in
      let there = ((d.ranges next (get_hashes_prefix base) kv).0 has).1 in
      absurd (ground (arith, q, there, path)))
  seen_at name (some (value, n)) slashless q =
      let kv : Kv = record {
        key = get_hashes_key base name key;
        value = value;
        mod_revision = n;
      } in
      hash_map-Has base key name kv seen [] (d.distinct next (get_hashes_prefix base)) slashless
        refl ((d.ranges next (get_hashes_prefix base) kv).1 ((name <> ("/" <> key), refl), q))

  pub seen_slashed :
      (name : String) (p : String × String)
      → split_slash name ≡ some p
      → get_hash name (hash_map base key seen []) ≡ none
  unfolding get_hash
  seen_slashed name p slash = hash_map-other base key name seen [] (λ kv has parsed.
      let slashless = (key-parse_hash_path base kv.key name key _ refl parsed).1 in
      absurd (ground (arith, slash, slashless)))
