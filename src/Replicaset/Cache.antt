-- ===== src/Replicaset/Cache.antt =====
-- `cachedDiscoverer` of cli/replicaset/discovery.go over a sequence of calls.
use tt.Prelude.{
  ◌≡◌, ◌⊎◌, inl, inr, refl, Bool, true, false, List, [], ◌∷◌, arith, Bool-cases, ap, if◌then◌else◌,
}
use tt.Replicaset.{CachedDiscoverer, CacheBehavior, use_cache, skip_cache, discovery}

true-ne-false : ¬ (true ≡ false)
true-ne-false e = cc

module _ {R : Type 0} where
  pair :
      {found r : R} {fails : Bool}
      → found ≡ r
      → fails ≡ false
      → ◌≡◌ {A = R × Bool} (found, fails) (r, false)
  pair e f = cc (e, f)

  uncached :
      {r kept : R} {was : Bool} (found : R) (fails : Bool)
      → (if fails then false else true) ≡ true
      → found ≡ r
      → ((was ≡ true) × (kept ≡ r)) ⊎ ((found ≡ r) × (fails ≡ false))
  uncached found true h e = absurd (ground (arith, h))
  uncached found false h e = inr (e, refl)

  -- The state after calls, each with what the discovery under it would give.
  unfoldable pub after : List (CacheBehavior × (R × Bool)) → CachedDiscoverer R → CachedDiscoverer R
  after [] c = c
  after ((behavior, answer) ∷ calls) c = after calls (discovery behavior answer c).0

  -- In some call the discovery would give this result, without an error.
  abbrev pub IsAnswered : R → List (CacheBehavior × (R × Bool)) → Type 0
  IsAnswered r [] = ⊥
  IsAnswered r ((behavior, answer) ∷ calls) = (answer ≡ (r, false)) ⊎ IsAnswered r calls

  discovery-cached :
      (behavior : CacheBehavior) (found : R) (fails : Bool) (c : CachedDiscoverer R) (r : R)
      → (discovery behavior (found, fails) c).0.cached ≡ true
      → (discovery behavior (found, fails) c).0.replicasets ≡ r
      → ((c.cached ≡ true) × (c.replicasets ≡ r)) ⊎ ((found ≡ r) × (fails ≡ false))
  unfolding discovery
  discovery-cached skip_cache found true c r h e = absurd (ground (arith, h))
  discovery-cached skip_cache found false c r h e = inr (e, refl)
  discovery-cached use_cache found fails c r h e = elim (Bool-cases c.cached) [
    | inl k ↦ inl (k, rw k at e)
    | inr k ↦ uncached found fails (rw k at h) (rw k at e)
  ]

  after-IsAnswered_from :
      (calls : List (CacheBehavior × (R × Bool))) (c : CachedDiscoverer R)
      → (after calls c).cached ≡ true
      → ((c.cached ≡ true) × (c.replicasets ≡ (after calls c).replicasets))
        ⊎ IsAnswered (after calls c).replicasets calls
  unfolding after
  after-IsAnswered_from [] c h = inl (h, refl)
  after-IsAnswered_from ((behavior, (found, fails)) ∷ calls) c h =
      elim (after-IsAnswered_from calls (discovery behavior (found, fails) c).0 h) [
        | inr k ↦ inr (inr k)
        | inl k ↦
            elim (discovery-cached behavior found fails c
              (after calls (discovery behavior (found, fails) c).0).replicasets k.0 k.1) [
                | inl m ↦ inl m
                | inr m ↦ inr (inl (pair m.0 m.1))
              ]
      ]

  -- After any calls of a new discoverer, what is cached is a result that the discovery under it
  -- gave in one of them, without an error.
  pub after-IsAnswered :
      (calls : List (CacheBehavior × (R × Bool))) (c : CachedDiscoverer R)
      → c.cached ≡ false
      → (after calls c).cached ≡ true
      → IsAnswered (after calls c).replicasets calls
  after-IsAnswered calls c fresh h = elim (after-IsAnswered_from calls c h) [
    | inl k ↦ absurd (ground (arith, fresh, k.0))
    | inr k ↦ k
  ]

  discovery-cached_after :
      (behavior : CacheBehavior) (answer : R × Bool) (c : CachedDiscoverer R) (r : R)
      → (discovery behavior answer c).1.0 ≡ (r, false)
      → ((discovery behavior answer c).0.cached ≡ true)
        × ((discovery behavior answer c).0.replicasets ≡ r)
  unfolding discovery
  discovery-cached_after skip_cache (found, true) c r h = absurd (true-ne-false (ap (λ x. x.1) h))
  discovery-cached_after skip_cache (found, false) c r h = (refl, ap (λ x. x.0) h)
  discovery-cached_after use_cache (found, true) c r h = elim (Bool-cases c.cached) [
    | inl k ↦ rw k (refl, ap (λ x. x.0) (rw k at h))
    | inr k ↦ absurd (true-ne-false (ap (λ x. x.1) (rw k at h)))
  ]
  discovery-cached_after use_cache (found, false) c r h = elim (Bool-cases c.cached) [
    | inl k ↦ rw k (refl, ap (λ x. x.0) (rw k at h))
    | inr k ↦ rw k (refl, ap (λ x. x.0) (rw k at h))
  ]

  repeats :
      (other : R × Bool) (c : CachedDiscoverer R) (r : R)
      → c.cached ≡ true
      → c.replicasets ≡ r
      → discovery use_cache other c ≡ (c, ((r, false), false))
  unfolding discovery
  repeats other c r h e = rw (h, e) refl

  -- A call that may use the cache, right after a call without an error, gives the same result,
  -- does not ask the discovery under it, and leaves the state as it is.
  discovery-use_cache :
      (behavior : CacheBehavior) (answer other : R × Bool) (c : CachedDiscoverer R) (r : R)
      → (discovery behavior answer c).1.0 ≡ (r, false)
      → discovery use_cache other (discovery behavior answer c).0
        ≡ ((discovery behavior answer c).0, ((r, false), false))
  discovery-use_cache behavior answer other c r h =
      let (cached, same) = discovery-cached_after behavior answer c r h in
      repeats other (discovery behavior answer c).0 r cached same
