-- ===== src/Replicaset/Discovered.antt =====
-- The discovery of an application with the centralized configuration: the topologies of the instances
-- that can be connected to, merged.
use mathlib.Core.List.{append_assoc, append-nil}
use tt.Prelude.{
  ltb, ◌||◌, ℕ, suc, ◌+◌, String, Bool, true, false, Option, none, some, List, [], ◌∷◌, ◌++◌,
  nat_eq, length, if◌then◌else◌, ◌≡◌, refl, ap, ◌∙◌, arith, Bool-cases, inl, inr, All,
}
use tt.Replicaset.Instances.{InstanceCtx, Replicaset}
use tt.Replicaset.Topology.{
  CconfigTopology, get_cconfig_instance_topology, with_ctx, merge_cconfig_topologies,
}
use tt.Replicaset.Merged.{IsDistinct, found}
use tt.Replicaset.Reports.{kept, summary, reports_of}
use tt.Replicaset.Summary.{instances_of, merge_cconfig_topologies-summary}
use tt.Replicaset.Eval.{
  EvalError, none_connected, goes_on, eval_loop, eval_foreach_with, eval_foreach_alive,
  collect_topology, merged_or_error, discover_application, TopologyError,
}

module _ (connects : InstanceCtx → Bool)
    (answers : InstanceCtx → Option (List (Option CconfigTopology))) where
  -- What the instances that can be connected to report, each with its context.
  unfoldable pub topologies_of : List InstanceCtx → List CconfigTopology
  topologies_of [] = []
  topologies_of (i ∷ is) = elim (connects i) [
    | false ↦ topologies_of is
    | true ↦ elim (get_cconfig_instance_topology (answers i)) [
      | none ↦ topologies_of is
      | some t ↦ with_ctx i t ∷ topologies_of is
    ]
  ]

  -- Who can be connected to answers with a topology.
  abbrev pub Answers : List InstanceCtx → Type 0
  Answers is =
      All
        (λ (i : InstanceCtx).
          connects i ≡ true
          → (t : CconfigTopology) × (get_cconfig_instance_topology (answers i) ≡ some t))
        is

  -- Whether someone can be connected to.
  unfoldable pub is_connected : List InstanceCtx → Bool
  is_connected [] = false
  is_connected (i ∷ is) = connects i || is_connected is

  abbrev ending : ℕ → Option (EvalError TopologyError)
  ending n = if nat_eq n 0 then some none_connected else none

  step_on :
      (i : InstanceCtx) (is : List InstanceCtx) (n : ℕ) (ts : List CconfigTopology)
      (t : CconfigTopology)
      → connects i ≡ true
      → get_cconfig_instance_topology (answers i) ≡ some t
      → eval_loop connects (collect_topology answers) true (i ∷ is) n ts
        ≡ eval_loop connects (collect_topology answers) true is (n + 1) (ts ++ (with_ctx i t ∷ []))
  unfolding eval_loop
  step_on i is n ts t on answered =
      let found_more : (collect_topology answers i ts).0 ≡ ts ++ (with_ctx i t ∷ []) =
        unfold collect_topology in rw (collect_topology, answered) refl in
      let on_it_goes : (collect_topology answers i ts).1 ≡ goes_on =
        unfold collect_topology in rw (collect_topology, answered) refl in
      rw (eval_loop, on, on_it_goes, found_more) refl

  step_off :
      (i : InstanceCtx) (is : List InstanceCtx) (n : ℕ) (ts : List CconfigTopology)
      → connects i ≡ false
      → eval_loop connects (collect_topology answers) true (i ∷ is) n ts
        ≡ eval_loop connects (collect_topology answers) true is n ts
  unfolding eval_loop
  step_off i is n ts off = rw (eval_loop, off) refl

  reports_off :
      (i : InstanceCtx) (is : List InstanceCtx)
      → connects i ≡ false
      → topologies_of (i ∷ is) ≡ topologies_of is
  unfolding topologies_of
  reports_off i is off = rw (topologies_of, off) refl

  reports_on :
      (i : InstanceCtx) (is : List InstanceCtx) (t : CconfigTopology)
      → connects i ≡ true
      → get_cconfig_instance_topology (answers i) ≡ some t
      → topologies_of (i ∷ is) ≡ with_ctx i t ∷ topologies_of is
  unfolding topologies_of
  reports_on i is t on answered = rw (topologies_of, on, answered) refl

  collected :
      (is : List InstanceCtx) (n : ℕ) (ts : List CconfigTopology)
      → Answers is
      → eval_loop connects (collect_topology answers) true is n ts
        ≡ (ts ++ topologies_of is, ending (n + length (topologies_of is)))
  collected [] n ts h =
      let same : n + 0 ≡ n = omega arith in
      unfold eval_loop topologies_of in rw (eval_loop, same, append-nil ts) refl
  collected (i ∷ is) n ts h = elim (Bool-cases (connects i)) [
    | inr off ↦ step_off i is n ts off ∙ collected is n ts h.1 ∙ rw (reports_off i is off) refl
    | inl on ↦
        let (t, answered) = h.0 on in
        let count : n + suc (length (topologies_of is)) ≡ n + 1 + length (topologies_of is) =
          omega arith in
        step_on i is n ts t on answered
        ∙ collected is (n + 1) (ts ++ (with_ctx i t ∷ [])) h.1
        ∙ rw
            (
              reports_on i is t on answered,
              count,
              append_assoc ts (with_ctx i t ∷ []) (topologies_of is),
            )
            refl
  ]

  merged_lem :
      (ts : List CconfigTopology)
      → merged_or_error (ts, ending (length ts)) ≡ merged_or_error (ts, none)
  unfolding merged_or_error
  merged_lem [] = refl
  merged_lem (t ∷ ts) = ground arith

  merged_some :
      (ts : List CconfigTopology)
      → ltb 0 (length ts) ≡ true
      → merged_or_error (ts, none) ≡ some (merge_cconfig_topologies ts)
  unfolding merged_or_error
  merged_some [] some_topology = absurd (cc some_topology)
  merged_some (t ∷ ts) some_topology = refl

  -- Who can be connected to and answers has a topology.
  reached :
      (is : List InstanceCtx)
      → Answers is
      → is_connected is ≡ true
      → ltb 0 (length (topologies_of is)) ≡ true
  unfolding is_connected
  reached [] h on = absurd (cc on)
  reached (i ∷ is) h on = elim (Bool-cases (connects i)) [
    | inr off ↦ rw (reports_off i is off) (reached is h.1 (ground (arith, on, off)))
    | inl first ↦
        let (t, answered) = h.0 first in rw (reports_on i is t first answered) (ground arith)
  ]

  discovered :
      (is : List InstanceCtx)
      → Answers is
      → discover_application connects answers is ≡ merged_or_error (topologies_of is, none)
  unfolding discover_application eval_foreach_alive eval_foreach_with
  discovered [] h = unfold merged_or_error topologies_of in refl
  discovered (i ∷ is) h =
      let loop = collected (i ∷ is) 0 [] h in
      let count : 0 + length (topologies_of (i ∷ is)) ≡ length (topologies_of (i ∷ is)) =
        omega arith in
      ap merged_or_error loop ∙ rw count (merged_lem (topologies_of (i ∷ is)))

  -- Where at least one instance can be connected to, and everyone who can be answers with a topology
  -- that lists each instance once, the discovery gives replicasets, and an instance is in a replicaset
  -- exactly if a topology of the replicaset reports it with a URI: with the first URI, mode and context
  -- that are known.
  pub discover_application-summary :
      (is : List InstanceCtx) (r u : String)
      → Answers is
      → is_connected is ≡ true
      → All (λ (t : CconfigTopology). IsDistinct t.instances) (topologies_of is)
      → (rs : List Replicaset) × (discover_application connects answers is ≡ some rs)
        × (found u (instances_of r rs) ≡ kept (summary (reports_of r u (topologies_of is))))
  discover_application-summary is r u h on distinct =
      let ts = topologies_of is in
      (
        merge_cconfig_topologies ts,
        discovered is h ∙ merged_some ts (reached is h on),
        merge_cconfig_topologies-summary r u ts distinct,
      )
