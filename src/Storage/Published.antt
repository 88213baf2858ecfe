-- ===== src/Storage/Published.antt =====
-- The loop of `IntegrityEtcdAllDataPublisher.Publish`, lib/cluster/etcd.go, over all its attempts.
use tt.Prelude.{
  ℕ, String, ◌≡◌, refl, sym, ap, ◌∙◌, Bool, true, false, Option, none, some, inl, inr, List, [],
  ◌∷◌, nat_eq_iff, arith, Bool-cases,
}
use tt.Storage.{SignFunc, Hashes, get_config_prefix, get_hashes_prefix, get_sign_prefix}
use tt.Storage.Etcd.{Kv, Etcd, Txn, holds, Documented}
use tt.Storage.Exchange.{
  Target, target_of, txn_get_ops, exchange_txn, Attempt, exchange_rounds, publish_signed,
}
use tt.Storage.Exchanged.{Exchanged, stale, exchanged}

-- The attempts from a store on, with what was seen before: a refused one changes no key and sees what
-- is there then, and the last one replaces what was seen.
pub data ExchangedIn (e : Etcd) (base : String) (t : Target)
    : List (Attempt e.Store) → e.Store → e.Store → e.Store → Type 0 where
  last_attempt :
      (a : Attempt e.Store) (attempts : List (Attempt e.Store)) (seen s next : e.Store)
      → Exchanged e base t seen (a.between s) next
      → ExchangedIn e base t (a ∷ attempts) seen s next
  refused_attempt :
      (a : Attempt e.Store) (attempts : List (Attempt e.Store)) (seen s s' next : e.Store)
      → ((k : String) → e.found s' k ≡ e.found (a.between s) k)
      → ExchangedIn e base t attempts (a.between s) s' next
      → ExchangedIn e base t (a ∷ attempts) seen s next

module _ (e : Etcd) (d : Documented e) (base text : String) (hashes : Hashes) (sig : String) where
  abbrev pub t : Target
  t = target_of base text hashes sig

  abbrev pub responses_of : e.Store → List (List Kv)
  responses_of seen =
      e.range seen (get_config_prefix base)
      ∷ e.range seen (get_hashes_prefix base)
      ∷ e.range seen (get_sign_prefix base)
      ∷ []

  abbrev txn : e.Store → Txn
  txn seen = exchange_txn base t (stale e d base text hashes sig seen)

  accepted :
      (a : Attempt e.Store) (attempts : List (Attempt e.Store)) (seen s : e.Store)
      → a.fails ≡ false
      → holds e (a.between s) (txn seen).cmps ≡ true
      → exchange_rounds e base t (a ∷ attempts) (responses_of seen) s
        ≡ ((e.commit (txn seen) (a.between s)).0, none)
  unfolding exchange_rounds
  accepted a attempts seen s works yes_it =
      ground (arith, works, yes_it, d.decides (txn seen) (a.between s))

  read_again :
      (seen now : e.Store)
      → holds e now (txn seen).cmps ≡ false
      → (e.commit (txn seen) now).1.responses ≡ responses_of now
  unfolding exchange_txn
  read_again seen now no_it = d.replies (txn seen) now (rw no_it refl) ∙ rw no_it refl

  refused_same :
      (seen now : e.Store)
      → holds e now (txn seen).cmps ≡ false
      → (k : String) → e.found (e.commit (txn seen) now).0 k ≡ e.found now k
  unfolding exchange_txn
  refused_same seen now no_it k = d.leaves (txn seen) now k (rw no_it refl)

  -- The transaction is refused: its other operations read the keys again.
  refused :
      (a : Attempt e.Store) (attempts : List (Attempt e.Store)) (seen s : e.Store)
      → a.fails ≡ false
      → holds e (a.between s) (txn seen).cmps ≡ false
      → exchange_rounds e base t (a ∷ attempts) (responses_of seen) s
        ≡ exchange_rounds e base t attempts
            (responses_of (a.between s))
            (e.commit (txn seen) (a.between s)).0
  unfolding exchange_rounds exchange_txn
  refused a attempts seen s works no_it =
      ground (arith, works, no_it, d.decides (txn seen) (a.between s))
      ∙ ap
          (λ (responses : List (List Kv)).
            exchange_rounds e base t attempts responses (e.commit (txn seen) (a.between s)).0)
          (read_again seen (a.between s) no_it)

  returned_works :
      (a : Attempt e.Store) (attempts : List (Attempt e.Store)) (seen s : e.Store)
      → (exchange_rounds e base t (a ∷ attempts) (responses_of seen) s).1 ≡ none
      → a.fails ≡ false
  unfolding exchange_rounds
  returned_works a attempts seen s h = ground (arith, h)

  pub exchange_rounds-ExchangedIn :
      (attempts : List (Attempt e.Store)) (seen s : e.Store)
      → (exchange_rounds e base t attempts (responses_of seen) s).1 ≡ none
      → ExchangedIn e base t attempts seen s
          (exchange_rounds e base t attempts (responses_of seen) s).0
  unfolding exchange_txn
  exchange_rounds-ExchangedIn [] seen s h = absurd (unfold exchange_rounds in ground (arith, h))
  exchange_rounds-ExchangedIn (a ∷ attempts) seen s h =
      let works = returned_works a attempts seen s h in
      elim (Bool-cases (holds e (a.between s) (txn seen).cmps)) [
        | inl yes_it ↦ rw (accepted a attempts seen s works yes_it) (
            ExchangedIn.last_attempt a attempts seen s _
              (exchanged e d base text hashes sig seen (a.between s) yes_it))
        | inr no_it ↦
            let same = refused a attempts seen s works no_it in
            let s' = (e.commit (txn seen) (a.between s)).0 in
            rw same (
              ExchangedIn.refused_attempt a attempts seen s s' _
                (refused_same seen (a.between s) no_it)
                (exchange_rounds-ExchangedIn attempts (a.between s) s' (rw (sym same) h)))
      ]

  first_responses :
      (s : e.Store)
      → (e.commit (record { cmps = []; then_ops = txn_get_ops base; else_ops = [] }) s).1.responses
        ≡ responses_of s
  first_responses s =
      d.replies (record { cmps = []; then_ops = txn_get_ops base; else_ops = [] }) s refl

-- No error means that everything before the loop worked.
signed_inputs :
    (e : Etcd) (sign : SignFunc) (get_fails : Bool) (base : String) (revision : ℕ) (text : String)
    (attempts : List (Attempt e.Store)) (s : e.Store) (o : Option (Hashes × String))
    → sign text ≡ o
    → (publish_signed e sign get_fails base revision (some text) attempts s).1 ≡ none
    → (a : Attempt e.Store) × ((rest : List (Attempt e.Store)) × ((hashes : Hashes)
          × ((sig : String) × ((revision ≡ 0)
                × ((get_fails ≡ false)
                    × ((sign text ≡ some (hashes, sig)) × (attempts ≡ a ∷ rest)))))))
unfolding publish_signed
signed_inputs e sign get_fails base revision text attempts s none q h =
    absurd (ground (arith, q, h, nat_eq_iff revision 0))
signed_inputs e sign get_fails base revision text [] s (some (hashes, sig)) q h =
    absurd (ground (arith, q, h, nat_eq_iff revision 0))
signed_inputs e sign get_fails base revision text (a ∷ rest) s (some (hashes, sig)) q h = (
  a,
  (
    rest,
    (
      hashes,
      (
        sig,
        (
          ground (arith, q, h, nat_eq_iff revision 0),
          (ground (arith, q, h, nat_eq_iff revision 0), (q, refl)),
        ),
      ),
    ),
  ),
)

publish_signed_step :
    (e : Etcd) (sign : SignFunc) (get_fails : Bool) (base : String) (revision : ℕ) (text : String)
    (attempts : List (Attempt e.Store)) (s : e.Store) (a : Attempt e.Store)
    (rest : List (Attempt e.Store)) (hashes : Hashes) (sig : String)
    → revision ≡ 0
    → get_fails ≡ false
    → sign text ≡ some (hashes, sig)
    → attempts ≡ a ∷ rest
    → publish_signed e sign get_fails base revision (some text) attempts s
      ≡ exchange_rounds e base
          (target_of base text hashes sig)
          attempts
          (e.commit
            (record { cmps = []; then_ops = txn_get_ops base; else_ops = [] })
            s).1.responses
          (e.commit (record { cmps = []; then_ops = txn_get_ops base; else_ops = [] }) s).0
unfolding publish_signed
publish_signed_step e sign get_fails base revision text attempts s a rest hashes sig zero_it works
      signed same =
    ground (arith, zero_it, works, signed, same)

-- Where `IntegrityEtcdAllDataPublisher.Publish` returns no error, the requested revision was 0, and there
-- were contents that the `signFunc` signed. What was seen first is the given store, which the reading left
-- as it was, and each attempt before the last changed no key: what changed until the last transaction is
-- what other clients did. The last transaction wrote the contents and the signature; every other key of
-- the configuration, the hashes and the signatures that was seen and that is not written had the seen
-- revision just before it and is gone after it; no other key that is not written changed.
pub publish_signed-ExchangedIn :
    (e : Etcd) (d : Documented e) (sign : SignFunc) (get_fails : Bool) (base : String)
    (revision : ℕ) (contents : Option String) (attempts : List (Attempt e.Store)) (s : e.Store)
    → (publish_signed e sign get_fails base revision contents attempts s).1 ≡ none
    → (revision ≡ 0)
      × ((text : String) × ((hashes : Hashes) × ((sig : String) × ((contents ≡ some text)
                × ((sign text ≡ some (hashes, sig))
                    × ((start : e.Store) × ((k : String) → e.found start k ≡ e.found s k)
                        × ExchangedIn e base
                            (target_of base text hashes sig)
                            attempts
                            s
                            start
                            (publish_signed e sign get_fails base revision contents attempts
                              s).0))))))
publish_signed-ExchangedIn e d sign get_fails base revision none attempts s h =
    absurd (unfold publish_signed in ground (arith, h))
publish_signed-ExchangedIn e d sign get_fails base revision (some text) attempts s h =
    let (a, (rest, (hashes, (sig, (zero_it, (works, (signed, same))))))) =
      signed_inputs e sign get_fails base revision text attempts s _ refl h in
    let responses = first_responses e d base text hashes sig s in
    let start = (e.commit (record { cmps = []; then_ops = txn_get_ops base; else_ops = [] }) s).0 in
    let step : publish_signed e sign get_fails base revision (some text) attempts s
        ≡ exchange_rounds e base (target_of base text hashes sig) attempts
            (responses_of e d base text hashes sig s) start =
      publish_signed_step e sign get_fails base revision text attempts s a rest hashes sig zero_it
        works signed same
      ∙ ap
          (λ (r : List (List Kv)).
            exchange_rounds e base (target_of base text hashes sig) attempts r start)
          responses in
    (
      zero_it,
      (
        text,
        (
          hashes,
          (
            sig,
            (
              refl,
              (
                signed,
                (
                  start,
                  (λ k.
                      d.leaves (record { cmps = []; then_ops = txn_get_ops base; else_ops = [] }) s
                        k refl),
                  rw step (
                      exchange_rounds-ExchangedIn e d base text hashes sig attempts s start
                        (rw (sym step) h)),
                ),
              ),
            ),
          ),
        ),
      ),
    )
