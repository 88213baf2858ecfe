-- ===== src/Replicaset/Reports.antt =====
-- mergeCConfigTopologies of cli/replicaset/cconfig.go against what each topology reports of an
-- instance.
use tt.Prelude.{
  String, Option, none, some, List, [], ◌∷◌, ◌++◌, ◌==◌, eq_iff, if◌then◌else◌, ◌≡◌, inl, inr, refl,
  ap, ◌∙◌, subst, Bool-cases, arith,
}
use tt.Replicaset.Instances.{Instance, InstanceCtx, Mode, mode_unknown}
use tt.Replicaset.Topology.{
  CconfigTopology, fill, update_instance, update_cconfig_instances, is_unknown, or_else,
}
use tt.Replicaset.Merged.{found, Fresh, IsDistinct, joined, found-update_instance}

-- The reports of an instance, in order.
unfoldable pub reports : String → List Instance → List Instance
reports u [] = []
reports u (t ∷ ts) = if t.uuid == u then t ∷ reports u ts else reports u ts

-- The reports of the instance `u` from topologies of the replicaset `r`.
unfoldable pub reports_of : String → String → List CconfigTopology → List Instance
reports_of r u [] = []
reports_of r u (t ∷ ts) =
    if t.uuid == r then reports u t.instances ++ reports_of r u ts else reports_of r u ts

-- The first URI, mode and context that are known.
unfoldable pub first_uri : List Instance → String
first_uri [] = ""
first_uri (i ∷ l) = if i.uri == "" then first_uri l else i.uri

unfoldable pub first_mode : List Instance → Mode
first_mode [] = mode_unknown
first_mode (i ∷ l) = if is_unknown i.mode then first_mode l else i.mode

unfoldable pub first_ctx : List Instance → Option InstanceCtx
first_ctx [] = none
first_ctx (i ∷ l) = or_else i.ctx (first_ctx l)

-- An instance of which there are reports.
unfoldable pub summary : List Instance → Option Instance
summary [] = none
summary (i ∷ l) =
    some (record i { uri = first_uri (i ∷ l); mode = first_mode (i ∷ l); ctx = first_ctx (i ∷ l) })

-- An instance without a URI is expelled.
abbrev pub kept : Option Instance → Option Instance
kept none = none
kept (some i) = if i.uri == "" then none else some i

unfoldable pub joined_all : Option Instance → List Instance → Option Instance
joined_all o [] = o
joined_all o (t ∷ ts) = joined_all (some (joined o t)) ts

summary-fill :
    (i t : Instance) (ts : List Instance) → summary (fill i t ∷ ts) ≡ summary (i ∷ t ∷ ts)
unfolding summary first_uri first_mode first_ctx fill
summary-fill i t ts = ground arith

pub joined_all-summary :
    (i : Instance) (ts : List Instance) → joined_all (some i) ts ≡ summary (i ∷ ts)
unfolding joined_all
joined_all-summary i [] =
    let same : i ≡ record i {
      uri = first_uri (i ∷ []);
      mode = first_mode (i ∷ []);
      ctx = first_ctx (i ∷ []);
    } =
      unfold first_uri first_mode first_ctx in ground (arith, eq_iff i.uri "") in
    unfold summary in ap some same
joined_all-summary i (t ∷ ts) = joined_all-summary (fill i t) ts ∙ summary-fill i t ts

pub joined_all-append :
    (o : Option Instance) (xs ys : List Instance)
    → joined_all o (xs ++ ys) ≡ joined_all (joined_all o xs) ys
unfolding joined_all
joined_all-append o [] ys = refl
joined_all-append o (x ∷ xs) ys = joined_all-append (some (joined o x)) xs ys

pub found-updates :
    (u : String) (ts l : List Instance)
    → IsDistinct l
    → IsDistinct (update_cconfig_instances ts l)
      × (found u (update_cconfig_instances ts l) ≡ joined_all (found u l) (reports u ts))
unfolding update_cconfig_instances reports joined_all
found-updates u [] l d = (d, refl)
found-updates u (t ∷ ts) l d =
    let (d', one) = found-update_instance u t l d in
    let (d'', rest) = found-updates u ts (update_instance t l) d' in
    (
      d'',
      elim (Bool-cases (t.uuid == u)) [
        | inl same ↦
            let first : found u (update_instance t l) ≡ some (joined (found u l) t) =
              one ∙ rw (same, (eq_iff t.uuid u).0 same) refl in
            rest ∙ rw (same, first) refl
        | inr other ↦
            let first : found u (update_instance t l) ≡ found u l = one ∙ rw other refl in
            rest ∙ rw (other, first) refl
      ],
    )

-- In a topology that lists each instance once, an instance has one report at most.
reports-Fresh : (u : String) (l : List Instance) → Fresh u l → reports u l ≡ []
unfolding reports
reports-Fresh u [] h = refl
reports-Fresh u (i ∷ l) h = rw (reports, h.0) (reports-Fresh u l h.1)

pub found-reports :
    (u : String) (l : List Instance) → IsDistinct l → found u l ≡ joined_all none (reports u l)
unfolding found reports joined_all
found-reports u [] d = refl
found-reports u (i ∷ l) d = elim (Bool-cases (i.uuid == u)) [
  | inl same ↦
      let alone : reports u l ≡ [] =
        reports-Fresh u l (subst (λ (v : String). Fresh v l) ((eq_iff i.uuid u).0 same) d.0) in
      rw (found, reports, same, alone) refl
  | inr other ↦ rw (found, reports, other) (found-reports u l d.1)
]
