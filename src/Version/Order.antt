-- ===== src/Version/Order.antt =====
-- `IsLess` orders versions by their numbers.
use tt.Prelude.{
  ℕ, ◌<◌, ◌≡◌, refl, subst, ◌∙◌, true, false, List, [], ◌∷◌, arith, nat_eq, ◌⊎◌, inl, inr, length,
  Bool-cases,
}
use tt.Version.{Version, numbers, less_numbers, is_less}

unfolding_less :
    (a b : ℕ) (l m : List ℕ)
    → less_numbers (a ∷ l) (b ∷ m) ≡ true
    → (a < b) ⊎ ((a ≡ b) × (less_numbers l m ≡ true))
unfolding less_numbers
unfolding_less a b l m h = elim (Bool-cases (nat_eq a b)) [
  | inl same ↦ inr (ground arith, ground arith)
  | inr other ↦ inl (ground arith)
]

less_numbers_irrefl : (l : List ℕ) → less_numbers l l ≡ false
unfolding less_numbers
less_numbers_irrefl [] = refl
less_numbers_irrefl (a ∷ l) = ground (arith, less_numbers_irrefl l)

less_head : (a b : ℕ) (l m : List ℕ) → a < b → less_numbers (a ∷ l) (b ∷ m) ≡ true
unfolding less_numbers
less_head a b l m h = ground arith

less_tail : (a : ℕ) (l m : List ℕ) → less_numbers l m ≡ true → less_numbers (a ∷ l) (a ∷ m) ≡ true
unfolding less_numbers
less_tail a l m h = ground arith

less_numbers_trans :
    (l m n : List ℕ)
    → length l ≡ length m
    → length m ≡ length n
    → less_numbers l m ≡ true
    → less_numbers m n ≡ true
    → less_numbers l n ≡ true
unfolding less_numbers
less_numbers_trans [] [] n e f h k = absurd (ground (arith, h))
less_numbers_trans [] (b ∷ m) n e f h k = absurd (omega arith)
less_numbers_trans (a ∷ l) [] n e f h k = absurd (omega arith)
less_numbers_trans (a ∷ l) (b ∷ m) [] e f h k = absurd (omega arith)
less_numbers_trans (a ∷ l) (b ∷ m) (c ∷ n) e f h k = elim (unfolding_less a b l m h) [
  | inl p ↦ elim (unfolding_less b c m n k) [
    | inl q ↦ less_head a c l n (omega arith)
    | inr (q, r) ↦ less_head a c l n (omega arith)
  ]
  | inr (p, s) ↦ elim (unfolding_less b c m n k) [
    | inl q ↦ less_head a c l n (omega arith)
    | inr (q, r) ↦
        subst (λ x. less_numbers (a ∷ l) (x ∷ n) ≡ true) (p ∙ q)
          (less_tail a l n (less_numbers_trans l m n (omega arith) (omega arith) s r))
  ]
]

less_numbers_connex :
    (l m : List ℕ)
    → length l ≡ length m
    → less_numbers l m ≡ false
    → less_numbers m l ≡ false
    → l ≡ m
unfolding less_numbers
less_numbers_connex [] [] e h k = refl
less_numbers_connex [] (b ∷ m) e h k = absurd (omega arith)
less_numbers_connex (a ∷ l) [] e h k = absurd (omega arith)
less_numbers_connex (a ∷ l) (b ∷ m) e h k = elim (Bool-cases (nat_eq a b)) [
  | inl same ↦
      let p : a ≡ b = ground arith in
      let q : l ≡ m = less_numbers_connex l m (omega arith) (ground arith) (ground arith) in cc
  | inr other ↦ absurd (ground arith)
]

-- `IsLess` is transitive.
is_less_trans : (a b c : Version) → is_less a b ≡ true → is_less b c ≡ true → is_less a c ≡ true
unfolding is_less numbers
is_less_trans a b c h k = less_numbers_trans (numbers a) (numbers b) (numbers c) refl refl h k

pub is_less_irrefl : (a : Version) → is_less a a ≡ false
unfolding is_less
is_less_irrefl a = less_numbers_irrefl (numbers a)

pub is_less_asymm : (a b : Version) → is_less a b ≡ true → is_less b a ≡ false
is_less_asymm a b h = elim (Bool-cases (is_less b a)) [
  | inr k ↦ k
  | inl k ↦ absurd (ground (arith, is_less_trans a b a h k, is_less_irrefl a))
]

-- Of two versions one is less than the other, and not the other way round, or the numbers of both
-- are equal, and none is less.
pub is_less_trichotomy :
    (a b : Version)
    → ((is_less a b ≡ true) × (is_less b a ≡ false))
      ⊎ (((is_less b a ≡ true) × (is_less a b ≡ false))
          ⊎ ((numbers a ≡ numbers b) × (is_less a b ≡ false) × (is_less b a ≡ false)))
unfolding is_less numbers
is_less_trichotomy a b = elim (Bool-cases (is_less a b)) [
  | inl h ↦ inl (h, is_less_asymm a b h)
  | inr h ↦ elim (Bool-cases (is_less b a)) [
    | inl k ↦ inr (inl (k, h))
    | inr k ↦ inr (inr (less_numbers_connex (numbers a) (numbers b) refl h k, h, k))
  ]
]

pub not_less_trans :
    (a b c : Version) → is_less a b ≡ false → is_less b c ≡ false → is_less a c ≡ false
unfolding is_less
not_less_trans a b c h k = elim (Bool-cases (is_less a c)) [
  | inr n ↦ n
  | inl n ↦ elim (is_less_trichotomy a b) [
    | inl (p, q) ↦ absurd (ground (arith, p, h))
    | inr (inl (p, q)) ↦ absurd (ground (arith, is_less_trans b a c p n, k))
    | inr (inr (p, q, r)) ↦ rw (p, k)
  ]
]
