-- ===== src/Storage/Whole.antt =====
-- `EtcdAllDataPublisher.Publish` and `EtcdAllCollector.Collect`, lib/cluster/etcd.go, together.
use tt.Prelude.{
  ℕ, String, ◌<>◌, ◌≡◌, refl, sym, ap, ◌∙◌, ◌≢◌, inl, inr, false, Option, none, some, List, [], ◌∷◌,
  ◌++◌, All, Has, nat_eq, nat_eq_iff, ◌==◌, arith, eq_iff, Bool-cases, All-Has,
}
use tt.Storage.{get_config_prefix, get_config_key, fetched}
use tt.Storage.Etcd.{Kv, Etcd, Documented, IsDistinct}
use tt.Storage.Publish.{Round, publish_all, collect_all}
use tt.Storage.Swap.{Swapped, IsQuiet, Works}
use tt.Storage.Loop.{SwappedIn, SwappedIn-Has, publish_rounds-SwappedIn, publish_rounds-quiet}

-- Where `EtcdAllDataPublisher.Publish` returns no error, the requested revision was 0 and there were
-- contents. From the given store on, each round before the last changed no key: what changed until the
-- last transaction is what other clients did. The last transaction gave the key `all` the contents; every
-- other key under the prefix that its round had seen had the seen revision just before it and is gone
-- after it; no other key changed.
pub publish_all-SwappedIn :
    (e : Etcd) (d : Documented e) (base : String) (revision : ℕ) (contents : Option String)
    (rounds : List (Round e.Store)) (s : e.Store)
    → (publish_all e base revision contents rounds s).1 ≡ none
    → (revision ≡ 0)
      × ((text : String) × (contents ≡ some text)
          × SwappedIn e
              (get_config_prefix base)
              (get_config_key base "all")
              text
              rounds
              s
              (publish_all e base revision contents rounds s).0)
unfolding publish_all get_config_key
publish_all-SwappedIn e d base revision none rounds s h = absurd (ground (arith, h))
publish_all-SwappedIn e d base revision (some text) rounds s h =
    elim (Bool-cases (nat_eq revision 0)) [
      | inr other ↦ absurd (ground (arith, h, other))
      | inl same ↦
          let zero_it : revision ≡ 0 = (nat_eq_iff revision 0).0 same in
          (
            zero_it,
            (
              text,
              refl,
              rw same (
                  publish_rounds-SwappedIn e d (get_config_prefix base)
                    (get_config_prefix base <> "all") text rounds s (ground (arith, h, same))),
            ),
          )
    ]

-- After rounds in which no call fails, a round in which no call fails and no other client changes a key between the two calls
-- makes `EtcdAllDataPublisher.Publish` return no error, if it has not returned before.
pub publish_all-quiet :
    (e : Etcd) (d : Documented e) (base text : String) (noisy rest : List (Round e.Store))
    (r : Round e.Store) (s : e.Store)
    → All (Works e) noisy
    → IsQuiet e r
    → (publish_all e base 0 (some text) (noisy ++ r ∷ rest) s).1 ≡ none
unfolding publish_all
publish_all-quiet e d base text noisy rest r s works quiet =
    publish_rounds-quiet e d (get_config_prefix base) (get_config_prefix base <> "all") text noisy r
      rest s works quiet

one_kv :
    (key contents : String) (kv : Kv) (l : List Kv)
    → ((x : Kv) → Has x l → (x.key ≡ key) × (x.value ≡ contents))
    → IsDistinct l
    → Has kv l
    → l ≡ kv ∷ []
one_kv key contents kv [] all distinct h = absurd h
one_kv key contents kv (x ∷ []) all distinct (inl e) = cc
one_kv key contents kv (x ∷ []) all distinct (inr h) = absurd h
one_kv key contents kv (x ∷ (y ∷ l)) all distinct h =
    absurd (distinct.0.0 ((all y (inr (inl refl))).0 ∙ sym (all x (inl refl)).0))

module _ (e : Etcd) (d : Documented e) (prefix contents : String) (r : Round e.Store)
    (quiet : IsQuiet e r) where
  abbrev key : String
  key = prefix <> "all"

  gone :
      (seen next : e.Store) (k rest : String)
      → k ≡ prefix <> rest
      → k ≢ key
      → Swapped e prefix key contents seen (r.between seen) next
      → (o : Option (String × ℕ)) → e.found seen k ≡ o
      → e.found next k ≡ none
  gone seen next k rest begins other swapped none h =
      swapped.kept k other (λ _ _. h) ∙ (quiet.untouched seen k ∙ h)
  gone seen next k rest begins other swapped (some (v, n)) h =
      (swapped.removed k rest v n begins other h).1

  alone :
      (seen next : e.Store)
      → Swapped e prefix key contents seen (r.between seen) next
      → (kv : Kv) → Has kv (e.range next prefix)
      → (kv.key ≡ key) × (kv.value ≡ contents)
  alone seen next swapped kv has =
      let ((rest, begins), there) = (d.ranges next prefix kv).0 has in
      elim (Bool-cases (kv.key == key)) [
        | inr other ↦
            let differs : kv.key ≢ key =
              λ q. absurd (ground (arith, other, q, eq_iff kv.key key)) in
            absurd (ground (arith, there, gone seen next kv.key rest begins differs swapped _ refl))
        | inl same ↦
            let q : kv.key ≡ key = (eq_iff kv.key key).0 same in
            (q, ground (arith, there, q, swapped.written))
      ]

  only_data :
      (seen next : e.Store)
      → Swapped e prefix key contents seen (r.between seen) next
      → (o : Option (String × ℕ)) → e.found next key ≡ o
      → (n : ℕ) × (e.range next prefix
          ≡ record { key = key; value = contents; mod_revision = n } ∷ [])
  only_data seen next swapped none h = absurd (ground (arith, h, swapped.written))
  only_data seen next swapped (some (v, n)) h =
      let same : v ≡ contents = ground (arith, h, swapped.written) in
      let kv : Kv = record { key = key; value = contents; mod_revision = n } in
      let has : Has kv (e.range next prefix) =
        (d.ranges next prefix kv).1 (("all", refl), (h ∙ ap (λ (t : String). some (t, n)) same)) in
      (n, one_kv key contents kv _ (alone seen next swapped) (d.distinct next prefix) has)

-- While no call fails and no other client changes a key between the two calls of a round,
-- `EtcdAllDataPublisher.Publish` returns no error, and `EtcdAllCollector.Collect` then finds the published
-- contents under the key `all` and nothing else.
pub publish_all-collect_all :
    (e : Etcd) (d : Documented e) (base text : String) (r : Round e.Store)
    (rest : List (Round e.Store)) (s : e.Store)
    → All (IsQuiet e) (r ∷ rest)
    → ((publish_all e base 0 (some text) (r ∷ rest) s).1 ≡ none)
      × ((n : ℕ) × (collect_all e false base (publish_all e base 0 (some text) (r ∷ rest) s).0
            ≡ fetched
                (record { source = get_config_key base "all"; value = text; revision = n } ∷ [])))
unfolding publish_all collect_all get_config_key
publish_all-collect_all e d base text r rest s quiet =
    let ok = publish_all-quiet e d base text [] rest r s tt quiet.0 in
    let prefix = get_config_prefix base in
    let (r2, seen, has, swapped) =
      SwappedIn-Has e prefix (prefix <> "all") text (r ∷ rest) s _
        (publish_rounds-SwappedIn e d prefix (prefix <> "all") text (r ∷ rest) s ok) in
    let quiet2 = All-Has (IsQuiet e) r2 (r ∷ rest) quiet has in
    let (n, only) = only_data e d prefix text r2 quiet2 seen _ swapped _ refl in
    (ok, (n, rw only refl))
