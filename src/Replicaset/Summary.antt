-- ===== src/Replicaset/Summary.antt =====
-- The replicasets that mergeCConfigTopologies of cli/replicaset/cconfig.go gives, against the reports of
-- the topologies.
use tt.Prelude.{
  String, true, false, Option, none, List, [], ◌∷◌, map, ◌==◌, eq_iff, if◌then◌else◌, ◌≡◌, inl, inr,
  refl, ap, sym, ◌∙◌, subst, Bool-cases, All,
}
use tt.Replicaset.Instances.{Instance, Replicaset, recalculate_masters, recalculate_master}
use tt.Replicaset.Topology.{
  CconfigTopology, new_replicaset, merge_topology, merge_all, unexpelled, clear_expelled,
  merge_cconfig_topologies,
}
use tt.Replicaset.Merged.{found, Fresh, IsDistinct}
use tt.Replicaset.Reports.{
  reports, reports_of, summary, kept, joined_all, joined_all-summary, joined_all-append,
  found-updates, found-reports,
}

-- The instances of the first replicaset with a UUID.
unfoldable pub instances_of : String → List Replicaset → List Instance
instances_of r [] = []
instances_of r (x ∷ xs) = if x.uuid == r then x.instances else instances_of r xs

abbrev Sound : List Replicaset → Type 0
Sound rs = All (λ (x : Replicaset). IsDistinct x.instances) rs

apart : (s t v : String) → (s == t) ≡ false → (t == v) ≡ true → (s == v) ≡ false
apart s t v h e = subst (λ (w : String). (s == w) ≡ false) ((eq_iff t v).0 e) h

-- What one topology changes in the replicaset `r`, seen from the instance `u`.
module _ (r u : String) (t : CconfigTopology) (distinct : IsDistinct t.instances) where
  abbrev after : List Replicaset → Option Instance
  after rs =
      if t.uuid == r
      then joined_all (found u (instances_of r rs)) (reports u t.instances)
      else found u (instances_of r rs)

  found-merge_topology :
      (rs : List Replicaset)
      → Sound rs
      → Sound (merge_topology t rs) × (found u (instances_of r (merge_topology t rs)) ≡ after rs)
  unfolding merge_topology instances_of new_replicaset
  found-merge_topology [] h = (
    (distinct, tt),
    elim (Bool-cases (t.uuid == r)) [
      | inl same ↦ unfold found in rw same (found-reports u t.instances distinct)
      | inr other ↦ rw other refl
    ],
  )
  found-merge_topology (x ∷ xs) h = elim (Bool-cases (t.uuid == x.uuid)) [
    | inl same ↦
        let (d, one) = found-updates u t.instances x.instances h.0 in
        let uuid : t.uuid ≡ x.uuid = (eq_iff t.uuid x.uuid).0 same in
        rw (merge_topology, same)
          (
            (d, h.1),
            elim (Bool-cases (x.uuid == r)) [
              | inl here ↦ rw (uuid, here) one
              | inr gone ↦ rw (uuid, gone) refl
            ],
          )
    | inr other ↦
        let (rest, one) = found-merge_topology xs h.1 in
        rw (merge_topology, other)
          (
            (h.0, rest),
            elim (Bool-cases (x.uuid == r)) [
              | inl here ↦ rw (here, apart t.uuid x.uuid r other here) refl
              | inr gone ↦ rw gone one
            ],
          )
  ]

found-merge_all :
    (r u : String) (ts : List CconfigTopology) (rs : List Replicaset)
    → All (λ (t : CconfigTopology). IsDistinct t.instances) ts
    → Sound rs
    → Sound (merge_all ts rs)
      × (found u (instances_of r (merge_all ts rs))
          ≡ joined_all (found u (instances_of r rs)) (reports_of r u ts))
unfolding merge_all reports_of joined_all
found-merge_all r u [] rs d h = (h, refl)
found-merge_all r u (t ∷ ts) rs d h =
    let (h', one) = found-merge_topology r u t d.0 rs h in
    let (h'', rest) = found-merge_all r u ts (merge_topology t rs) d.1 h' in
    (
      h'',
      elim (Bool-cases (t.uuid == r)) [
        | inl same ↦
            let first : found u (instances_of r (merge_topology t rs))
                ≡ joined_all (found u (instances_of r rs)) (reports u t.instances) =
              one ∙ rw same refl in
            rest
            ∙ rw (same, first)
                (sym (
                  joined_all-append (found u (instances_of r rs)) (reports u t.instances)
                    (reports_of r u ts)))
        | inr other ↦
            let first : found u (instances_of r (merge_topology t rs))
                ≡ found u (instances_of r rs) =
              one ∙ rw other refl in
            rest ∙ rw (other, first) refl
      ],
    )

Sound-at : (r : String) (rs : List Replicaset) → Sound rs → IsDistinct (instances_of r rs)
unfolding instances_of
Sound-at r [] h = tt
Sound-at r (x ∷ xs) h = elim (Bool-cases (x.uuid == r)) [
  | inl here ↦ rw (instances_of, here) h.0
  | inr gone ↦ rw (instances_of, gone) (Sound-at r xs h.1)
]

all_summary : (ts : List Instance) → joined_all none ts ≡ summary ts
unfolding joined_all summary
all_summary [] = refl
all_summary (t ∷ ts) = joined_all-summary t ts

unexpelled-Fresh : (u : String) (l : List Instance) → Fresh u l → found u (unexpelled l) ≡ none
unfolding unexpelled found
unexpelled-Fresh u [] h = refl
unexpelled-Fresh u (i ∷ l) h = elim (Bool-cases (i.uri == "")) [
  | inl e ↦ rw (unexpelled, e) (unexpelled-Fresh u l h.1)
  | inr e ↦ rw (unexpelled, e, found, h.0) (unexpelled-Fresh u l h.1)
]

found-unexpelled :
    (u : String) (l : List Instance) → IsDistinct l → found u (unexpelled l) ≡ kept (found u l)
unfolding unexpelled found
found-unexpelled u [] d = refl
found-unexpelled u (i ∷ l) d = elim (Bool-cases (i.uuid == u)) [
  | inl same ↦ elim (Bool-cases (i.uri == "")) [
    | inl e ↦
        let fresh = subst (λ (v : String). Fresh v l) ((eq_iff i.uuid u).0 same) d.0 in
        rw (unexpelled, found, e, same) (unexpelled-Fresh u l fresh ∙ rw e refl)
    | inr e ↦ rw (unexpelled, e, found, same) (rw e refl)
  ]
  | inr other ↦ elim (Bool-cases (i.uri == "")) [
    | inl e ↦ rw (unexpelled, e, found, other) (found-unexpelled u l d.1)
    | inr e ↦ rw (unexpelled, e, found, other) (found-unexpelled u l d.1)
  ]
]

instances_of-final :
    (r : String) (rs : List Replicaset)
    → instances_of r (recalculate_masters (map clear_expelled rs)) ≡ unexpelled (instances_of r rs)
unfolding instances_of recalculate_masters recalculate_master clear_expelled unexpelled
instances_of-final r [] = refl
instances_of-final r (x ∷ xs) = elim (Bool-cases (x.uuid == r)) [
  | inl here ↦ rw here refl
  | inr gone ↦ rw gone (instances_of-final r xs)
]

-- Where every topology lists each instance once, the merged replicaset has an instance exactly if it is
-- reported with a URI: the URI, mode and context are the first that are known, all else is from the
-- first report.
pub merge_cconfig_topologies-summary :
    (r u : String) (ts : List CconfigTopology)
    → All (λ (t : CconfigTopology). IsDistinct t.instances) ts
    → found u (instances_of r (merge_cconfig_topologies ts)) ≡ kept (summary (reports_of r u ts))
unfolding merge_cconfig_topologies instances_of found
merge_cconfig_topologies-summary r u ts d =
    let (sound, one) = found-merge_all r u ts [] d tt in
    let all = merge_all ts [] in
    ap (found u) (instances_of-final r all)
    ∙ found-unexpelled u (instances_of r all) (Sound-at r all sound)
    ∙ ap kept (one ∙ all_summary (reports_of r u ts))
