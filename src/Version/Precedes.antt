-- ===== src/Version/Precedes.antt =====
-- The order of versions that `IsLess` of cli/version/version_tools.go decides.
use tt.Prelude.{
  ℕ, ◌<◌, ◌≡◌, refl, ap, ◌⊎◌, ◌↔◌, inl, inr, true, List, [], ◌∷◌, arith, nat_eq, sym, ◌≤◌, ◌∙◌,
  if◌then◌else◌, Bool-cases,
}
use tt.Version.{
  ReleaseType, type_nightly, type_alpha, type_beta, type_rc, type_release, type_number, Version,
  numbers, less_numbers, is_less,
}

-- Nightly builds come before alphas, those before betas, those before release candidates, and those
-- before releases.
abbrev pub IsEarlier : ReleaseType → ReleaseType → Type 0
IsEarlier type_nightly type_nightly = ⊥
IsEarlier type_nightly _ = Unit {0}
IsEarlier type_alpha type_nightly = ⊥
IsEarlier type_alpha type_alpha = ⊥
IsEarlier type_alpha _ = Unit {0}
IsEarlier type_beta type_rc = Unit {0}
IsEarlier type_beta type_release = Unit {0}
IsEarlier type_beta _ = ⊥
IsEarlier type_rc type_release = Unit {0}
IsEarlier type_rc _ = ⊥
IsEarlier type_release _ = ⊥

-- The first of the fields major, minor, patch, type of the release, number of the release, additional
-- commits and revision in which the versions differ is smaller in the first version.
abbrev pub Precedes : Version → Version → Type 0
Precedes a b =
    (a.major < b.major)
    ⊎ ((a.major ≡ b.major)
        × ((a.minor < b.minor)
            ⊎ ((a.minor ≡ b.minor)
                × ((a.patch < b.patch)
                    ⊎ ((a.patch ≡ b.patch)
                        × (IsEarlier a.release.release_type b.release.release_type
                            ⊎ ((a.release.release_type ≡ b.release.release_type)
                                × ((a.release.num < b.release.num)
                                    ⊎ ((a.release.num ≡ b.release.num)
                                        × ((a.additional < b.additional)
                                            ⊎ ((a.additional ≡ b.additional)
                                                × (a.revision < b.revision))))))))))))

less_numbers_iff :
    (a b : ℕ) (l m : List ℕ)
    → (less_numbers (a ∷ l) (b ∷ m) ≡ true) ↔ ((a < b) ⊎ ((a ≡ b) × (less_numbers l m ≡ true)))
unfolding less_numbers
less_numbers_iff a b l m = (
  λ h. elim (Bool-cases (nat_eq a b)) [
    | inl same ↦ inr (ground arith, ground arith)
    | inr other ↦ inl (ground arith)
  ],
  elim [ inl h ↦ ground arith | inr (e, h) ↦ ground arith ],
)

less_numbers_last : (a b : ℕ) → (less_numbers (a ∷ []) (b ∷ []) ≡ true) ↔ (a < b)
unfolding less_numbers
less_numbers_last a b = (λ h. ground arith, λ h. ground arith)

earlier : {m n : ℕ} → m < n → (m < n) ↔ Unit {0}
earlier h = (λ k. tt, λ k. h)

not_earlier : {m n : ℕ} → n ≤ m → (m < n) ↔ ⊥
not_earlier h = (λ k. absurd (omega arith), λ k. absurd k)

IsEarlier_iff : (s t : ReleaseType) → (type_number s < type_number t) ↔ IsEarlier s t
unfolding type_number
IsEarlier_iff type_nightly type_nightly = not_earlier (omega arith)
IsEarlier_iff type_nightly type_alpha = earlier (omega arith)
IsEarlier_iff type_nightly type_beta = earlier (omega arith)
IsEarlier_iff type_nightly type_rc = earlier (omega arith)
IsEarlier_iff type_nightly type_release = earlier (omega arith)
IsEarlier_iff type_alpha type_nightly = not_earlier (omega arith)
IsEarlier_iff type_alpha type_alpha = not_earlier (omega arith)
IsEarlier_iff type_alpha type_beta = earlier (omega arith)
IsEarlier_iff type_alpha type_rc = earlier (omega arith)
IsEarlier_iff type_alpha type_release = earlier (omega arith)
IsEarlier_iff type_beta type_nightly = not_earlier (omega arith)
IsEarlier_iff type_beta type_alpha = not_earlier (omega arith)
IsEarlier_iff type_beta type_beta = not_earlier (omega arith)
IsEarlier_iff type_beta type_rc = earlier (omega arith)
IsEarlier_iff type_beta type_release = earlier (omega arith)
IsEarlier_iff type_rc type_nightly = not_earlier (omega arith)
IsEarlier_iff type_rc type_alpha = not_earlier (omega arith)
IsEarlier_iff type_rc type_beta = not_earlier (omega arith)
IsEarlier_iff type_rc type_rc = not_earlier (omega arith)
IsEarlier_iff type_rc type_release = earlier (omega arith)
IsEarlier_iff type_release type_nightly = not_earlier (omega arith)
IsEarlier_iff type_release type_alpha = not_earlier (omega arith)
IsEarlier_iff type_release type_beta = not_earlier (omega arith)
IsEarlier_iff type_release type_rc = not_earlier (omega arith)
IsEarlier_iff type_release type_release = not_earlier (omega arith)

type_of : ℕ → ReleaseType
type_of n =
    if nat_eq n 0
    then type_nightly
    else if nat_eq n 1
    then type_alpha
    else if nat_eq n 2
    then type_beta
    else if nat_eq n 3
    then type_rc
    else type_release

type_of-type_number : (s : ReleaseType) → type_of (type_number s) ≡ s
unfolding type_of type_number
type_of-type_number type_nightly = refl
type_of-type_number type_alpha = refl
type_of-type_number type_beta = refl
type_of-type_number type_rc = refl
type_of-type_number type_release = refl

type_number_iff : (s t : ReleaseType) → (type_number s ≡ type_number t) ↔ (s ≡ t)
type_number_iff s t = (
  λ h. sym (type_of-type_number s) ∙ (ap type_of h ∙ type_of-type_number t),
  λ h. ap type_number h,
)

-- A comparison by one number, then by the rest.
then_by :
    {A B P : Type 0}
    → (a b : ℕ) (l m : List ℕ) → (a < b) ↔ A
    → (a ≡ b) ↔ B
    → (less_numbers l m ≡ true) ↔ P
    → (less_numbers (a ∷ l) (b ∷ m) ≡ true) ↔ (A ⊎ (B × P))
then_by a b l m less same rest = (
  λ h. elim ((less_numbers_iff a b l m).0 h) [
    | inl k ↦ inl (less.0 k)
    | inr (e, k) ↦ inr (same.0 e, rest.0 k)
  ],
  elim [
    | inl k ↦ (less_numbers_iff a b l m).1 (inl (less.1 k))
    | inr (e, k) ↦ (less_numbers_iff a b l m).1 (inr (same.1 e, rest.1 k))
  ],
)

abbrev itself : {A : Type 0} → A ↔ A
itself = (λ x. x, λ x. x)

-- `IsLess` is true exactly if, in the first of the fields major, minor, patch, type and number of the
-- release, additional commits and revision in which the versions differ, the first version has the
-- smaller number or the earlier type: a nightly build, an alpha, a beta, a release candidate, a release.
pub is_less-Precedes : (a b : Version) → (is_less a b ≡ true) ↔ Precedes a b
unfolding is_less numbers
is_less-Precedes a b = then_by a.major b.major _ _ itself itself (
    then_by a.minor b.minor _ _ itself itself (
      then_by a.patch b.patch _ _ itself itself (
        then_by (type_number a.release.release_type) (type_number b.release.release_type) _ _
          (IsEarlier_iff a.release.release_type b.release.release_type)
          (type_number_iff a.release.release_type b.release.release_type)
          (then_by a.release.num b.release.num _ _ itself itself (
            then_by a.additional b.additional _ _ itself itself
              (less_numbers_last a.revision b.revision))))))
