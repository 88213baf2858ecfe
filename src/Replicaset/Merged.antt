-- ===== src/Replicaset/Merged.antt =====
-- What mergeCConfigTopologies of cli/replicaset/cconfig.go keeps of an instance.
use tt.Prelude.{
  String, true, false, Option, none, some, List, [], ◌∷◌, ◌++◌, ◌==◌, eq_iff, eq_refl,
  if◌then◌else◌, ◌≡◌, inl, inr, refl, sym, subst, Bool-cases, arith,
}
use tt.Replicaset.Instances.{Instance}
use tt.Replicaset.Topology.{fill, update_last, update_instance}

-- The first instance with a UUID.
unfoldable pub found : String → List Instance → Option Instance
found u [] = none
found u (i ∷ l) = if i.uuid == u then some i else found u l

abbrev pub Fresh : String → List Instance → Type 0
Fresh u [] = Unit {0}
Fresh u (i ∷ l) = ((i.uuid == u) ≡ false) × Fresh u l

-- No UUID twice.
abbrev pub IsDistinct : List Instance → Type 0
IsDistinct [] = Unit {0}
IsDistinct (i ∷ l) = Fresh i.uuid l × IsDistinct l

Fresh-found : (u : String) (l : List Instance) → Fresh u l → found u l ≡ none
unfolding found
Fresh-found u [] h = refl
Fresh-found u (i ∷ l) h = rw (found, h.0) (Fresh-found u l h.1)

found-Fresh : (u : String) (l : List Instance) → found u l ≡ none → Fresh u l
unfolding found
found-Fresh u [] h = tt
found-Fresh u (i ∷ l) h = elim (Bool-cases (i.uuid == u)) [
  | inl same ↦ absurd (ground (arith, h, same))
  | inr other ↦ (other, found-Fresh u l (ground (arith, h, other)))
]

-- An update fills the one instance of its UUID and leaves the others, or finds none.
data Updated (t : Instance) (l : List Instance) : Option (List Instance) → Type 0 where
  absent : Fresh t.uuid l → Updated t l none
  filled :
      (l' : List Instance) (i : Instance)
      → found t.uuid l ≡ some i
      → ((u : String) → found u l' ≡ (if t.uuid == u then some (fill i t) else found u l))
      → ((u : String) → Fresh u l → Fresh u l')
      → IsDistinct l'
      → Updated t l (some l')

eq_false : (s t : String) → (s == t) ≡ false → (t == s) ≡ false
eq_false s t h = ground (arith, eq_iff s t, eq_iff t s)

eq_true : (s t : String) → (s == t) ≡ true → s ≡ t
eq_true s t h = (eq_iff s t).0 h

fill_uuid : (i t : Instance) → (fill i t).uuid ≡ i.uuid
unfolding fill
fill_uuid i t = refl

-- An instance in front that has the UUID, where none behind it has it.
updated_first :
    (t i : Instance) (l : List Instance)
    → (t.uuid == i.uuid) ≡ true
    → Fresh t.uuid l
    → IsDistinct (i ∷ l)
    → Updated t (i ∷ l) (some (fill i t ∷ l))
unfolding found fill
updated_first t i l same fresh d =
    let same_uuid = eq_true t.uuid i.uuid same in
    Updated.filled (fill i t ∷ l) i (rw (same_uuid, eq_refl i.uuid) refl)
      (λ u.
        rw same_uuid (elim (Bool-cases (i.uuid == u)) [ inl e ↦ rw e refl | inr e ↦ rw e refl ]))
      (λ u h. h) d

updated_later :
    (t i : Instance) (l : List Instance)
    → IsDistinct (i ∷ l)
    → (o : Option (List Instance)) → Updated t l o
    → (t.uuid == i.uuid) ≡ false
    → Updated t (i ∷ l) (elim o [ some l' ↦ some (i ∷ l') | none ↦ none ])
unfolding found
updated_later t i l d _ (Updated.absent fresh) other =
    Updated.absent (eq_false t.uuid i.uuid other, fresh)
updated_later t i l d _ (Updated.filled l' x before after keeps distinct) other =
    Updated.filled (i ∷ l') x (rw (eq_false t.uuid i.uuid other) before)
      (λ u. elim (Bool-cases (i.uuid == u)) [
        | inl e ↦
            let apart : (t.uuid == u) ≡ false =
              subst (λ (v : String). (t.uuid == v) ≡ false) (eq_true i.uuid u e) other in
            rw (e, apart) refl
        | inr e ↦ rw e (after u)
      ])
      (λ u h. (h.0, keeps u h.1)) (keeps i.uuid d.0, distinct)

updated_cons :
    (t i : Instance) (l : List Instance)
    → IsDistinct (i ∷ l)
    → (o : Option (List Instance)) → Updated t l o
    → Updated t (i ∷ l) (elim o [
      | some l' ↦ some (i ∷ l')
      | none ↦ if t.uuid == i.uuid then some (fill i t ∷ l) else none
    ])
updated_cons t i l d _ (Updated.absent fresh) = elim (Bool-cases (t.uuid == i.uuid)) [
  | inl same ↦ rw same (updated_first t i l same fresh d)
  | inr other ↦ rw other (updated_later t i l d none (Updated.absent fresh) other)
]
updated_cons t i l d _ (Updated.filled l' x before after keeps distinct) =
    updated_later t i l d (some l') (Updated.filled l' x before after keeps distinct)
      (elim (Bool-cases (t.uuid == i.uuid)) [
        | inr other ↦ other
        | inl same ↦
            let fresh : Fresh t.uuid l =
              subst (λ (v : String). Fresh v l) (sym (eq_true t.uuid i.uuid same)) d.0 in
            absurd (cc (Fresh-found t.uuid l fresh, before))
      ])

updated : (t : Instance) (l : List Instance) → IsDistinct l → Updated t l (update_last t l)
unfolding update_last
updated t [] d = Updated.absent tt
updated t (i ∷ l) d = updated_cons t i l d (update_last t l) (updated t l d.1)

-- The UUID of an added instance is new.
Fresh-append :
    (u : String) (t : Instance) (l : List Instance)
    → Fresh u l
    → (t.uuid == u) ≡ false
    → Fresh u (l ++ (t ∷ []))
Fresh-append u t [] h other = (other, tt)
Fresh-append u t (i ∷ l) h other = (h.0, Fresh-append u t l h.1 other)

IsDistinct-append :
    (t : Instance) (l : List Instance) → Fresh t.uuid l → IsDistinct l → IsDistinct (l ++ (t ∷ []))
IsDistinct-append t [] h d = (tt, tt)
IsDistinct-append t (i ∷ l) h d =
    (Fresh-append i.uuid t l d.0 (eq_false i.uuid t.uuid h.0), IsDistinct-append t l h.1 d.1)

found_append :
    (u : String) (t : Instance) (l : List Instance)
    → Fresh t.uuid l
    → found u (l ++ (t ∷ [])) ≡ (if t.uuid == u then some t else found u l)
unfolding found
found_append u t [] h = refl
found_append u t (i ∷ l) h = elim (Bool-cases (i.uuid == u)) [
  | inl e ↦
      let apart : (t.uuid == u) ≡ false =
        subst (λ (v : String). (t.uuid == v) ≡ false) (eq_true i.uuid u e)
          (eq_false i.uuid t.uuid h.0) in
      rw (e, apart) refl
  | inr e ↦ rw e (found_append u t l h.1)
]

-- What is known of an instance after one more report.
abbrev pub joined : Option Instance → Instance → Instance
joined none t = t
joined (some i) t = fill i t

joined_found :
    (u : String) (t : Instance) (l : List Instance) (o : Option (List Instance))
    → IsDistinct l
    → Updated t l o
    → IsDistinct (elim o [ some l' ↦ l' | none ↦ l ++ (t ∷ []) ])
      × (found u (elim o [ some l' ↦ l' | none ↦ l ++ (t ∷ []) ])
          ≡ (if t.uuid == u then some (joined (found t.uuid l) t) else found u l))
joined_found u t l _ d (Updated.absent fresh) =
    (IsDistinct-append t l fresh d, rw (Fresh-found t.uuid l fresh) (found_append u t l fresh))
joined_found u t l _ d (Updated.filled l' i before after keeps distinct) =
    (distinct, rw before (after u))

-- An update of a list of instances, seen from one UUID.
pub found-update_instance :
    (u : String) (t : Instance) (l : List Instance)
    → IsDistinct l
    → IsDistinct (update_instance t l)
      × (found u (update_instance t l)
          ≡ (if t.uuid == u then some (joined (found t.uuid l) t) else found u l))
unfolding update_instance
found-update_instance u t l d = joined_found u t l (update_last t l) d (updated t l d)
