-- ===== src/Storage/Loop.antt =====
-- The loop of `EtcdAllDataPublisher.Publish`, lib/cluster/etcd.go, over all its rounds.
use tt.Prelude.{
  String, ◌≡◌, refl, sym, ap, ◌∙◌, inl, inr, true, false, none, List, [], ◌∷◌, ◌++◌, All, Has,
  arith, Bool-cases,
}
use tt.Storage.Etcd.{Txn, revision_of, Etcd, holds, Documented}
use tt.Storage.Publish.{stale_kvs, all_txn, Round, publish_rounds}
use tt.Storage.Cas.{stale_kvs-Has, Has-holds}
use tt.Storage.Swap.{Swapped, IsQuiet, Works, txn-Swapped}

-- The rounds from a store on: in each of them other clients do what they do and the round sees what is
-- there then; a refused round changes no key, and the last one replaces what it saw.
pub data SwappedIn (e : Etcd) (prefix key contents : String)
    : List (Round e.Store) → e.Store → e.Store → Type 0 where
  last_round :
      (r : Round e.Store) (rounds : List (Round e.Store)) (s next : e.Store)
      → Swapped e prefix key contents (r.before s) (r.between (r.before s)) next
      → SwappedIn e prefix key contents (r ∷ rounds) s next
  refused_round :
      (r : Round e.Store) (rounds : List (Round e.Store)) (s s' next : e.Store)
      → ((k : String) → e.found s' k ≡ e.found (r.between (r.before s)) k)
      → SwappedIn e prefix key contents rounds s' next
      → SwappedIn e prefix key contents (r ∷ rounds) s next

-- One of the rounds is the last one.
pub SwappedIn-Has :
    (e : Etcd) (prefix key contents : String) (rounds : List (Round e.Store)) (s next : e.Store)
    → SwappedIn e prefix key contents rounds s next
    → (r : Round e.Store) × (seen : e.Store) × Has r rounds
      × Swapped e prefix key contents seen (r.between seen) next
SwappedIn-Has e prefix key contents _ _ _ (SwappedIn.last_round r rounds s next swapped) =
    (r, r.before s, inl refl, swapped)
SwappedIn-Has e prefix key contents _ _ _ (SwappedIn.refused_round r rounds s s' next same rest) =
    let (last, seen, has, swapped) = SwappedIn-Has e prefix key contents rounds s' next rest in
    (last, seen, inr has, swapped)

module _ (e : Etcd) (d : Documented e) (prefix key contents : String) where
  abbrev pub txn : e.Store → Txn
  txn seen = all_txn key contents (e.range seen prefix)

  -- The transaction is refused: the next round begins.
  refused :
      (r : Round e.Store) (rounds : List (Round e.Store)) (s : e.Store)
      → Works e r
      → holds e (r.between (r.before s)) (txn (r.before s)).cmps ≡ false
      → publish_rounds e prefix key contents (r ∷ rounds) s
        ≡ publish_rounds e prefix key contents rounds
            (e.commit (txn (r.before s)) (r.between (r.before s))).0
  unfolding publish_rounds
  refused r rounds s works no_it =
      ground (arith, works, no_it, d.decides (txn (r.before s)) (r.between (r.before s)))

  refused_same :
      (seen now : e.Store)
      → holds e now (txn seen).cmps ≡ false
      → (k : String) → e.found (e.commit (txn seen) now).0 k ≡ e.found now k
  unfolding all_txn
  refused_same seen now no_it k = d.leaves (txn seen) now k (rw no_it refl)

  pub accepted :
      (r : Round e.Store) (rounds : List (Round e.Store)) (s : e.Store)
      → Works e r
      → holds e (r.between (r.before s)) (txn (r.before s)).cmps ≡ true
      → publish_rounds e prefix key contents (r ∷ rounds) s
        ≡ ((e.commit (txn (r.before s)) (r.between (r.before s))).0, none)
  unfolding publish_rounds
  accepted r rounds s works yes_it =
      ground (arith, works, yes_it, d.decides (txn (r.before s)) (r.between (r.before s)))

  -- No error means that no call failed.
  returned-Works :
      (r : Round e.Store) (rounds : List (Round e.Store)) (s : e.Store)
      → (publish_rounds e prefix key contents (r ∷ rounds) s).1 ≡ none
      → Works e r
  unfolding publish_rounds
  returned-Works r rounds s h = ground (arith, h)

  pub publish_rounds-SwappedIn :
      (rounds : List (Round e.Store)) (s : e.Store)
      → (publish_rounds e prefix key contents rounds s).1 ≡ none
      → SwappedIn e prefix key contents rounds s (publish_rounds e prefix key contents rounds s).0
  publish_rounds-SwappedIn [] s h = absurd (unfold publish_rounds in ground (arith, h))
  publish_rounds-SwappedIn (r ∷ rounds) s h =
      let seen = r.before s in
      let works = returned-Works r rounds s h in
      elim (Bool-cases (holds e (r.between seen) (txn seen).cmps)) [
        | inl yes_it ↦ rw (accepted r rounds s works yes_it) (
            SwappedIn.last_round r rounds s _
              (txn-Swapped e d prefix key contents seen (r.between seen) yes_it))
        | inr no_it ↦
            let same = refused r rounds s works no_it in
            let s' = (e.commit (txn seen) (r.between seen)).0 in
            rw same (
              SwappedIn.refused_round r rounds s s' _ (refused_same seen (r.between seen) no_it)
                (publish_rounds-SwappedIn rounds s' (rw (sym same) h)))
      ]

  pub publish_rounds-quiet :
      (noisy : List (Round e.Store)) (r : Round e.Store) (rest : List (Round e.Store)) (s : e.Store)
      → All (Works e) noisy
      → IsQuiet e r
      → (publish_rounds e prefix key contents (noisy ++ r ∷ rest) s).1 ≡ none
  unfolding all_txn
  publish_rounds-quiet [] r rest s works quiet =
      let seen = r.before s in
      let all_same : holds e (r.between seen) (txn seen).cmps ≡ true =
        Has-holds e (r.between seen) (stale_kvs key (e.range seen prefix)) (λ kv has.
          let there = ((d.ranges seen prefix kv).0 (stale_kvs-Has key kv _ has).0).1 in
          ap revision_of (quiet.untouched seen kv.key ∙ there)) in
      rw (accepted r rest s (quiet.get_works, quiet.commit_works) all_same) refl
  publish_rounds-quiet (x ∷ noisy) r rest s works quiet =
      let seen = x.before s in
      elim (Bool-cases (holds e (x.between seen) (txn seen).cmps)) [
        | inl yes_it ↦ rw (accepted x (noisy ++ r ∷ rest) s works.0 yes_it) refl
        | inr no_it ↦
            rw (refused x (noisy ++ r ∷ rest) s works.0 no_it)
              (publish_rounds-quiet noisy r rest _ works.1 quiet)
      ]
