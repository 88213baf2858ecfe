-- ===== src/Rpm/Dirs.antt =====
-- `addDirAndGetIndex` of cli/pack/rpm_header.go: no directory is named twice.
use tt.Prelude.{
  ℕ, zero, suc, ◌+◌, ◌≤◌, ◌≡◌, ◌⊎◌, refl, ap, sym, some, List, [], ◌∷◌, length, get_elem?, Has,
  true, arith, nat_eq, nat_eq_iff, Bool-cases, inl, inr,
}
use tt.Rpm.Header.{Bytes}
use tt.Rpm.Files.{bytes_eq, add_dir_and_get_index}

pub bytes_eq-eq : (x y : Bytes) → bytes_eq x y ≡ true → x ≡ y
unfolding bytes_eq
bytes_eq-eq [] [] h = refl
bytes_eq-eq [] (b ∷ y) h = absurd (cc)
bytes_eq-eq (a ∷ x) [] h = absurd (cc)
bytes_eq-eq (a ∷ x) (b ∷ y) h = elim (Bool-cases (nat_eq a b)) [
  | inl same ↦ cc ((nat_eq_iff a b).0 same, bytes_eq-eq x y (ground (arith, h, same)))
  | inr other ↦ absurd (ground (arith, h, other))
]

bytes_eq_refl : (x : Bytes) → bytes_eq x x ≡ true
unfolding bytes_eq
bytes_eq_refl [] = refl
bytes_eq_refl (a ∷ x) = rw (bytes_eq, (nat_eq_iff a a).1 refl) (bytes_eq_refl x)

-- No directory twice.
abbrev pub IsDistinct : List Bytes → Type 0
IsDistinct [] = Unit {0}
IsDistinct (d ∷ ds) = (Has d ds → ⊥) × IsDistinct ds

-- What an added directory does to the slice.
pub record IsAdded (ds : List Bytes) (f : Bytes) (ds' : List Bytes) (i : ℕ) : Type 0 where
  pub found : get_elem? ds' i ≡ some f
  pub kept : (j : ℕ) (d : Bytes) → get_elem? ds j ≡ some d → get_elem? ds' j ≡ some d
  pub bounded : i ≤ length ds
  pub grown : length ds' ≤ length ds + 1
  pub only : (d : Bytes) → Has d ds' → Has d ds ⊎ (d ≡ f)

cons_kept :
    (d : Bytes) (ds ds' : List Bytes)
    → ((j : ℕ) (x : Bytes) → get_elem? ds j ≡ some x → get_elem? ds' j ≡ some x)
    → (j : ℕ) (x : Bytes) → get_elem? (d ∷ ds) j ≡ some x
    → get_elem? (d ∷ ds') j ≡ some x
cons_kept d ds ds' kept zero x h = h
cons_kept d ds ds' kept (suc j) x h = kept j x h

pub added :
    (ds : List Bytes) (f : Bytes)
    → IsAdded ds f (add_dir_and_get_index ds f).0 (add_dir_and_get_index ds f).1
unfolding add_dir_and_get_index
added [] f = record {
  found = refl;
  kept = λ j d h. absurd (cc);
  bounded = omega arith;
  grown = omega arith;
  only = λ d h. elim h [ inl e ↦ inr e | inr k ↦ absurd k ];
}
added (d ∷ ds) f = elim (Bool-cases (bytes_eq d f)) [
  | inl same ↦
      rw (add_dir_and_get_index, same)
        record {
          found = ap some (bytes_eq-eq d f same);
          kept = λ j x h. h;
          bounded = omega arith;
          grown = omega arith;
          only = λ x h. inl h;
        }
  | inr other ↦
      let rec = added ds f in
      rw (add_dir_and_get_index, other)
        record {
          found = rec.found;
          kept = cons_kept d ds (add_dir_and_get_index ds f).0 rec.kept;
          bounded = omega (arith, rec.bounded);
          grown = omega (arith, rec.grown);
          only = λ x h. elim h [
            | inl e ↦ inl (inl e)
            | inr k ↦ elim (rec.only x k) [ inl o ↦ inl (inr o) | inr e ↦ inr e ]
          ];
        }
]

pub added-IsDistinct :
    (ds : List Bytes) (f : Bytes) → IsDistinct ds → IsDistinct (add_dir_and_get_index ds f).0
unfolding add_dir_and_get_index
added-IsDistinct [] f h = (λ k. k, tt)
added-IsDistinct (d ∷ ds) f h = elim (Bool-cases (bytes_eq d f)) [
  | inl same ↦ rw (add_dir_and_get_index, same) h
  | inr other ↦
      rw (add_dir_and_get_index, other)
        (
          λ k. elim ((added ds f).only d k) [
            | inl before ↦ h.0 before
            | inr e ↦ absurd (cc (other, ap (bytes_eq d) (sym e), bytes_eq_refl d))
          ],
          added-IsDistinct ds f h.1,
        )
]
