-- ===== src/Replicaset/LocalFiles.antt =====
-- `patchLocalCConfig` of cli/replicaset/cconfig.go: what it leaves in the file.
use tt.Prelude.{
  Option, none, some, true, ◌≡◌, ◌⊎◌, inl, inr, refl, sym, subst, Option-cases, Bool-cases,
}
use tt.Config.{Config}
use tt.Replicaset.{
  LocalFile, CconfigError, Outcome, done, failed, FileAnswers, patch_local, collect_failed,
  publish_failed,
}

pub Outcome-cases :
    {A : Type 0} (o : Outcome A) → ((e : CconfigError) × (o ≡ failed e)) ⊎ ((a : A) × (o ≡ done a))
Outcome-cases (failed e) = inl (e, refl)
Outcome-cases (done a) = inr (a, refl)

-- Why a patch leaves the file: it cannot be read, or the patch fails.
abbrev pub IsKept : FileAnswers → (Config → Outcome Config) → LocalFile → CconfigError → Type 0
IsKept a patch file e =
    ((e ≡ collect_failed) × ((a.collect_fails ≡ true) ⊎ (file ≡ none)))
    ⊎ ((c : Config) × (file ≡ some c) × (patch c ≡ failed e))

-- A patch of the file gives an error and keeps it, or gives the error of a failed publication, which
-- leaves any file, or gives none and is published.
pub data IsPatched (a : FileAnswers) (patch : Config → Outcome Config) (file : LocalFile)
    : LocalFile × Option CconfigError → Type 0 where
  kept : (e : CconfigError) → IsKept a patch file e → IsPatched a patch file (file, some e)
  damaged :
      (c d : Config) (left : LocalFile)
      → file ≡ some c
      → patch c ≡ done d
      → a.publish_fails ≡ some left
      → IsPatched a patch file (left, some publish_failed)
  patched :
      (c d : Config)
      → file ≡ some c
      → patch c ≡ done d
      → a.publish_fails ≡ none
      → IsPatched a patch file (some d, none)

pub patch_local-IsPatched :
    (a : FileAnswers) (patch : Config → Outcome Config) (file : LocalFile)
    → IsPatched a patch file (patch_local a patch file)
unfolding patch_local
patch_local-IsPatched a patch none = IsPatched.kept collect_failed (inl (refl, inr refl))
patch_local-IsPatched a patch (some c) = elim (Bool-cases a.collect_fails) [
  | inl k ↦
      subst (IsPatched a patch (some c)) (sym (rw k refl))
        (IsPatched.kept collect_failed (inl (refl, inl k)))
  | inr k ↦ elim (Outcome-cases (patch c)) [
    | inl (e, f) ↦
        subst (IsPatched a patch (some c)) (sym (rw (k, f) refl))
          (IsPatched.kept e (inr (c, refl, f)))
    | inr (d, f) ↦ elim (Option-cases a.publish_fails) [
      | inl m ↦
          subst (IsPatched a patch (some c)) (sym (rw (k, f, m) refl))
            (IsPatched.patched c d refl f m)
      | inr (left, m) ↦
          subst (IsPatched a patch (some c)) (sym (rw (k, f, m) refl))
            (IsPatched.damaged c d left refl f m)
    ]
  ]
]
