-- ===== src/Version/Sort.antt =====
-- `sort.Stable` and `sort.Sort` by the versions of the elements.
use tt.Prelude.{
  Has, suc, length, ap, refl, ◌∙◌, ◌↔◌, ◌⊎◌, ◌≡◌, false, List, [], ◌∷◌, All, Bool-cases, inl, inr,
  if◌then◌else◌,
}
use tt.Version.{Version, is_less}
use tt.Version.Order.{is_less_asymm, not_less_trans}

module _ {A : Type 0} (version : A → Version) where
  unfoldable pub insert_by : A → List A → List A
  insert_by x [] = x ∷ []
  insert_by x (y ∷ l) =
      let rest = insert_by x l in if is_less (version y) (version x) then y ∷ rest else x ∷ y ∷ l

  unfoldable pub stable_sort : List A → List A
  unfolding insert_by
  stable_sort [] = []
  stable_sort (x ∷ l) = insert_by x (stable_sort l)

  -- No element is less than one before it.
  abbrev pub IsSorted : List A → Type 0
  IsSorted [] = Unit
  IsSorted (x ∷ l) = All (λ y. is_less (version y) (version x) ≡ false) l × IsSorted l

  insert_by-All {κ} : (P : A → Type κ) (x : A) (l : List A) → P x → All P l → All P (insert_by x l)
  unfolding insert_by
  insert_by-All P x [] p h = (p, tt)
  insert_by-All P x (y ∷ l) p h = elim (Bool-cases (is_less (version y) (version x))) [
    | inl e ↦ rw e (h.0, insert_by-All P x l p h.1)
    | inr e ↦ rw e (p, h)
  ]

  not_less_after :
      (x y : A) (l : List A)
      → is_less (version y) (version x) ≡ false
      → All (λ z. is_less (version z) (version y) ≡ false) l
      → All (λ z. is_less (version z) (version x) ≡ false) l
  not_less_after x y [] h k = tt
  not_less_after x y (z ∷ l) h k =
      (not_less_trans (version z) (version y) (version x) k.0 h, not_less_after x y l h k.1)

  insert_by-IsSorted : (x : A) (l : List A) → IsSorted l → IsSorted (insert_by x l)
  unfolding insert_by
  insert_by-IsSorted x [] h = (tt, tt)
  insert_by-IsSorted x (y ∷ l) h = elim (Bool-cases (is_less (version y) (version x))) [
    | inl e ↦ rw e (
      insert_by-All (λ z. is_less (version z) (version y) ≡ false) x l
          (is_less_asymm (version y) (version x) e) h.0,
      insert_by-IsSorted x l h.1,
    )
    | inr e ↦ rw e ((e, not_less_after x y l e h.0), h)
  ]

  pub stable_sort-IsSorted : (l : List A) → IsSorted (stable_sort l)
  unfolding stable_sort
  stable_sort-IsSorted [] = tt
  stable_sort-IsSorted (x ∷ l) = insert_by-IsSorted x (stable_sort l) (stable_sort-IsSorted l)

  Has-insert_by_from : (a x : A) (l : List A) → Has a (insert_by x l) → (a ≡ x) ⊎ Has a l
  unfolding insert_by
  Has-insert_by_from a x [] h = h
  Has-insert_by_from a x (y ∷ l) h = elim (Bool-cases (is_less (version y) (version x))) [
    | inr e ↦ rw e at h
    | inl e ↦ elim (rw e at h) [
      | inl k ↦ inr (inl k)
      | inr k ↦ elim (Has-insert_by_from a x l k) [ inl m ↦ inl m | inr m ↦ inr (inr m) ]
    ]
  ]

  Has-insert_by_to : (a x : A) (l : List A) → (a ≡ x) ⊎ Has a l → Has a (insert_by x l)
  unfolding insert_by
  Has-insert_by_to a x [] h = h
  Has-insert_by_to a x (y ∷ l) h = elim (Bool-cases (is_less (version y) (version x))) [
    | inr e ↦ rw e h
    | inl e ↦ rw e (elim h [
      | inl k ↦ inr (Has-insert_by_to a x l (inl k))
      | inr k ↦ elim k [ inl m ↦ inl m | inr m ↦ inr (Has-insert_by_to a x l (inr m)) ]
    ])
  ]

  Has-insert_by : (a x : A) (l : List A) → Has a (insert_by x l) ↔ Has a (x ∷ l)
  Has-insert_by a x l = (Has-insert_by_from a x l, Has-insert_by_to a x l)

  pub Has-stable_sort : (a : A) (l : List A) → Has a (stable_sort l) ↔ Has a l
  unfolding stable_sort
  Has-stable_sort a [] = ((λ h. h), λ h. h)
  Has-stable_sort a (x ∷ l) = (
    (λ h. elim ((Has-insert_by a x (stable_sort l)).0 h) [
      | inl k ↦ inl k
      | inr k ↦ inr ((Has-stable_sort a l).0 k)
    ]),
    λ h.
        (Has-insert_by a x (stable_sort l)).1
          (elim h [ inl k ↦ inl k | inr k ↦ inr ((Has-stable_sort a l).1 k) ]),
  )

  length-insert_by : (x : A) (l : List A) → length (insert_by x l) ≡ suc (length l)
  unfolding insert_by
  length-insert_by x [] = refl
  length-insert_by x (y ∷ l) = elim (Bool-cases (is_less (version y) (version x))) [
    | inl e ↦ rw e (ap suc (length-insert_by x l))
    | inr e ↦ rw e refl
  ]

  pub length-stable_sort : (l : List A) → length (stable_sort l) ≡ length l
  unfolding stable_sort
  length-stable_sort [] = refl
  length-stable_sort (x ∷ l) = length-insert_by x (stable_sort l) ∙ ap suc (length-stable_sort l)

  -- What sort.Sort promises: a rearrangement of the elements, in order.
  pub record Sorts (sort : List A → List A) : Type 0 where
    pub rearranges : (a : A) (l : List A) → Has a (sort l) ↔ Has a l
    pub keeps_length : (l : List A) → length (sort l) ≡ length l
    pub sorts : (l : List A) → IsSorted (sort l)

  pub stable_sort-Sorts : Sorts stable_sort
  stable_sort-Sorts = record {
    rearranges = Has-stable_sort;
    keeps_length = length-stable_sort;
    sorts = stable_sort-IsSorted;
  }
