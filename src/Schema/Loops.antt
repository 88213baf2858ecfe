-- ===== src/Schema/Loops.antt =====
-- The loops of the validators of arrays and maps keep the shapes of the parts.
use tt.Prelude.{
  ◌≡◌, refl, sym, true, none, some, List, [], ◌∷◌, ◌++◌, arith, ◌⊎◌, inl, inr, All, All-append,
  Option-cases, Bool-cases,
}
use tt.Config.Data.{
  Key, Value, nil, scalar, list, map_any, Items, no_items, item, Entries, end, entry,
}
use tt.Schema.{
  Go, Checked, valid, invalid, panic, items_of, check_items, invalid_or, kept, as_key, key_value,
  write, check_entries,
}
use tt.Schema.Errors.{AnyError, ValidateError}
use tt.Schema.Shape.{AllItems, AllEntries}

pub Checked-cases :
    (r : Checked)
    → ((y : Value) × (r ≡ valid y)) ⊎ (((es : List ValidateError) × (r ≡ invalid es)) ⊎ (r ≡ panic))
Checked-cases (valid y) = inl (y, refl)
Checked-cases (invalid es) = inr (inl (es, refl))
Checked-cases panic = inr (inr refl)

pub invalid_or-valid :
    (errs : List AnyError) (v y : Value) → invalid_or errs v ≡ valid y → (errs ≡ []) × (v ≡ y)
invalid_or-valid [] v y h = (refl, ground (arith, h))
invalid_or-valid (e ∷ errs) v y h = cc

pub snoc-ne-nil {ℓ} : {A : Type ℓ} (l : List A) (a : A) → ¬ ((l ++ a ∷ []) ≡ [])
snoc-ne-nil [] a e = cc
snoc-ne-nil (x ∷ l) a e = cc

items_of-AllItems : (P : Value → Type 0) (l : List Value) → All P l → AllItems P (items_of l)
unfolding items_of
items_of-AllItems P [] h = tt
items_of-AllItems P (v ∷ l) h = (h.0, items_of-AllItems P l h.1)

pub check_items-AllItems :
    (P : Value → Type 0) (check : Value → Checked)
    → ((x y : Value) → check x ≡ valid y → P y)
    → (l : Items) (out : List Value) (errs : List AnyError) (y : Value) → All P out
    → check_items check l out errs ≡ valid y
    → (r : Items) × (y ≡ list r) × AllItems P r
unfolding check_items
check_items-AllItems P check each no_items out errs y h e = (
  items_of out,
  sym (invalid_or-valid errs (list (items_of out)) y e).1,
  items_of-AllItems P out h,
)
check_items-AllItems P check each (item v rest) out errs y h e = elim (Checked-cases (check v)) [
  | inl (w, f) ↦
      check_items-AllItems P check each rest (out ++ w ∷ []) errs y
        (All-append P out (w ∷ []) h (each v w f, tt)) (ground (arith, e, f))
  | inr (inl (es, f)) ↦
      check_items-AllItems P check each rest out (errs ++ kept [] es ∷ []) y h
        (ground (arith, e, f))
  | inr (inr f) ↦ absurd (ground (arith, e, f))
]

module _ (go : Go) (P : Key → Value → Type 0) where
  pub write-AllEntries :
      (key : Key) (v : Value)
      → ((j : Key) (w : Value) → go.key_eq j key ≡ true → P j w → P j v)
      → P key v
      → (m : Entries) → AllEntries P m
      → AllEntries P (write go key v m)
  unfolding write
  write-AllEntries key v replace p end h = (p, tt)
  write-AllEntries key v replace p (entry j w m) h = elim (Bool-cases (go.key_eq j key)) [
    | inl same ↦ rw same (replace j w same h.0, h.1)
    | inr other ↦ rw other (h.0, write-AllEntries key v replace p m h.1)
  ]

as_key-key_value : (v : Value) (k : Key) → as_key v ≡ some k → key_value k ≡ v
as_key-key_value nil none h = refl
as_key-key_value nil (some s) h = absurd (ground (arith, h))
as_key-key_value (scalar s) none h = absurd (ground (arith, h))
as_key-key_value (scalar s) (some t) h = ground (arith, h)
as_key-key_value _ k h = absurd (ground (arith, h))

module _ (go : Go) (K W : Value → Type 0) (check_key check_value : Value → Checked)
    (keys : (x y : Value) → check_key x ≡ valid y → K y)
    (values : (x y : Value) → check_value x ≡ valid y → W y) where
  abbrev Good : Key → Value → Type 0
  Good k v = K (key_value k) × W v

  pub check_entries-AllEntries :
      (m out : Entries) (errs : List AnyError) (y : Value)
      → AllEntries Good out
      → check_entries go check_key check_value m out errs ≡ valid y
      → (r : Entries) × (y ≡ map_any r) × AllEntries Good r
  unfolding check_entries
  check_entries-AllEntries end out errs y h e =
      (out, sym (invalid_or-valid errs (map_any out) y e).1, h)
  check_entries-AllEntries (entry k v rest) out errs y h e =
      elim (Checked-cases (check_key (key_value k))) [
        | inr (inl (es, f)) ↦
            check_entries-AllEntries rest out (errs ++ kept [] es ∷ []) y h (ground (arith, e, f))
        | inr (inr f) ↦ absurd (ground (arith, e, f))
        | inl (rkey, f) ↦ elim (Checked-cases (check_value v)) [
          | inr (inl (es, g)) ↦
              check_entries-AllEntries rest out
                (errs ++ kept (go.sprint (key_value k) ∷ []) es ∷ []) y h (ground (arith, e, f, g))
          | inr (inr g) ↦ absurd (ground (arith, e, f, g))
          | inl (rvalue, g) ↦ elim (Option-cases (as_key rkey)) [
            | inl n ↦ absurd (ground (arith, e, f, g, n))
            | inr (key, n) ↦
                check_entries-AllEntries rest (write go key rvalue out) errs y
                  (write-AllEntries go Good key rvalue
                    (λ j w same good. (good.0, values v rvalue g))
                    (
                      rw (as_key-key_value rkey key n) (keys (key_value k) rkey f),
                      values v rvalue g,
                    )
                    out h)
                  (ground (arith, e, f, g, n))
          ]
        ]
      ]
