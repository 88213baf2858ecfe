-- ===== src/Rpm/Align.antt =====
-- Padding puts the data of a tag on its boundary.
use native.Mathlib.Nat.{mul-mod_left, div-add-mod', mod-lt}
use mathlib.Core.List.{append-nil}
use tt.Prelude.{
  ℕ, zero, suc, ◌+◌, ◌-◌, ◌*◌, ◌/◌, ◌%◌, ◌<◌, ◌≡◌, refl, ap, sym, ◌∙◌, List, [], ◌++◌, length,
  length-append, arith, nat_eq, nat_eq_iff, ltb, Bool-cases, inl, inr,
}
use tt.Rpm.{zeros, align_data, aligned}

more_lem : (q n : ℕ) → (q + 1) * n ≡ q * n + n
more_lem q n = grind arith

ones : (n k : ℕ) → n ≡ 1 → k % n ≡ 0
ones n k e = rw e (omega arith)

pub length-zeros : (n : ℕ) → length (zeros n) ≡ n
unfolding zeros
length-zeros zero = refl
length-zeros (suc n) = ap suc (length-zeros n)

length-padded :
    (n : ℕ) (d : List ℕ)
    → 0 < n
    → length (d ++ zeros ((length d / n + 1) * n - length d)) ≡ (length d / n + 1) * n
length-padded n d h = omega (
  arith,
  length-append d (zeros ((length d / n + 1) * n - length d)),
  length-zeros ((length d / n + 1) * n - length d),
  div-add-mod' (length d) n,
  mod-lt (length d) h,
  more_lem (length d / n) n,
)

-- The data of a tag starts on its boundary, behind what was there.
pub aligned_lem :
    (n : ℕ) (d : List ℕ)
    → 0 < n
    → (pad : List ℕ) × (aligned n d ≡ d ++ pad) × (length (aligned n d) % n ≡ 0)
unfolding aligned align_data
aligned_lem n d h = elim (Bool-cases (ltb 1 n)) [
  | inr one ↦ rw one ([], sym (append-nil d), ones n (length d) (ground (arith, one)))
  | inl more ↦ elim (Bool-cases (nat_eq (length d % n) 0)) [
    | inl even ↦ rw (more, even) ([], sym (append-nil d), (nat_eq_iff (length d % n) 0).0 even)
    | inr odd ↦
        rw (more, odd)
          (
            zeros ((length d / n + 1) * n - length d),
            refl,
            ap (λ (k : ℕ). k % n) (length-padded n d h) ∙ mul-mod_left (length d / n + 1) n,
          )
  ]
]
