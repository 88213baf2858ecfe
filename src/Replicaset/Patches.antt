-- ===== src/Replicaset/Patches.antt =====
-- What the patches of cli/replicaset/cconfig.go change in a cluster configuration.
use tt.Prelude.{
  Bool, Option, none, some, true, String, ◌≡◌, ◌⊎◌, inl, inr, subst, false, [], ◌∷◌, arith,
  Option-cases,
}
use tt.Config.{Config, ok, get, set}
use tt.Config.Data.{string, Value, scalar, ConfigPath}
use tt.Config.Tree.{comparable}
use tt.Config.Access.{value_of, get-set_self, value_of-set_apart}
use tt.Replicaset.LocalFiles.{IsKept}
use tt.Replicaset.{
  LocalFile, election_mode_candidate, failover_off, failover_manual, CconfigInstance, CconfigError,
  Outcome, done, election_mode_voter, replicaset_setting, instance_setting, set_or_fail,
  patch_promote, patch_demote, patch_election_mode, FileAnswers, publish_failed, reload_failed,
  wait_failed,
}

-- The second configuration has the value at the path, and all else as the first one.
abbrev pub Sets : ConfigPath → Value → Config → Config → Type 0
Sets p v c d =
    (get p d ≡ ok v)
    × ((q : ConfigPath) → comparable p q ≡ false → value_of (get q d) ≡ value_of (get q c))

set_or_fail-Sets :
    (k : String) (p : ConfigPath) (s : String) (c d : Config)
    → set_or_fail (k ∷ p) (scalar (string s)) c ≡ done d
    → Sets (k ∷ p) (scalar (string s)) c d
unfolding set_or_fail
set_or_fail-Sets k p s c d h = elim (Option-cases (set (k ∷ p) (scalar (string s)) c).1) [
  | inr (e, f) ↦ absurd (ground (arith, h, f))
  | inl f ↦
      let same : (set (k ∷ p) (scalar (string s)) c).0 ≡ d = ground (arith, h, f) in
      subst (Sets (k ∷ p) (scalar (string s)) c) same (
        get-set_self (k ∷ p) (scalar (string s)) c f (λ e. cc),
        λ q a. value_of-set_apart (k ∷ p) q (scalar (string s)) c a,
      )
]

promotable :
    (i : CconfigInstance) (c d : Config)
    → patch_promote i c ≡ done d
    → (i.failover ≡ failover_off) ⊎ (i.failover ≡ failover_manual)
unfolding patch_promote
promotable i c d h = ground (arith, h)

demotable :
    (i : CconfigInstance) (c d : Config) → patch_demote i c ≡ done d → i.failover ≡ failover_off
unfolding patch_demote
demotable i c d h = ground (arith, h)

-- Where a promotion succeeds, the failover is off and the instance's database.mode is rw, or it is
-- manual and the instance is the leader of its replicaset; at all other paths nothing changes.
pub patch_promote-Sets :
    (i : CconfigInstance) (c d : Config)
    → patch_promote i c ≡ done d
    → ((i.failover ≡ failover_off)
        × Sets (instance_setting i ("database" ∷ "mode" ∷ [])) (scalar (string "rw")) c d)
      ⊎ ((i.failover ≡ failover_manual)
          × Sets (replicaset_setting i ("leader" ∷ [])) (scalar (string i.name)) c d)
unfolding patch_promote
patch_promote-Sets i c d h = elim (promotable i c d h) [
  | inl e ↦ inl (
    e,
    set_or_fail-Sets "groups"
        (i.group_name ∷ "replicasets" ∷ i.replicaset_name ∷ "instances" ∷ i.name ∷ "database"
          ∷ "mode" ∷ [])
        "rw" c d (ground (arith, h, e)),
  )
  | inr e ↦ inr (
    e,
    set_or_fail-Sets "groups" (i.group_name ∷ "replicasets" ∷ i.replicaset_name ∷ "leader" ∷ [])
        i.name c d (ground (arith, h, e)),
  )
]

-- Where a demotion succeeds, the failover is off and the instance's database.mode is ro; at all
-- other paths nothing changes.
pub patch_demote-Sets :
    (i : CconfigInstance) (c d : Config)
    → patch_demote i c ≡ done d
    → (i.failover ≡ failover_off)
      × Sets (instance_setting i ("database" ∷ "mode" ∷ [])) (scalar (string "ro")) c d
unfolding patch_demote
patch_demote-Sets i c d h =
    let e = demotable i c d h in
    (
      e,
      set_or_fail-Sets "groups"
          (i.group_name ∷ "replicasets" ∷ i.replicaset_name ∷ "instances" ∷ i.name ∷ "database"
            ∷ "mode" ∷ [])
          "ro" c d (ground (arith, h, e)),
    )

-- The second file decodes to the configuration of the first, with the value at the path.
abbrev pub FileSets : ConfigPath → Value → LocalFile → LocalFile → Type 0
FileSets p v before after =
    (c : Config) × (d : Config) × (before ≡ some c) × (after ≡ some d) × Sets p v c d

abbrev pub election_mode_path : CconfigInstance → ConfigPath
election_mode_path i = instance_setting i ("replication" ∷ "election_mode" ∷ [])

-- The outcomes of demoteElection: the file, whether it was published, and the error.
pub data Demoted (first : FileAnswers) (reload_fails wait_fails : Bool) (second : FileAnswers)
    (i : CconfigInstance) (before : LocalFile)
    : LocalFile × Bool × Option CconfigError → Type 0 where
  kept :
      (e : CconfigError)
      → IsKept first (patch_election_mode i election_mode_voter) before e
      → Demoted first reload_fails wait_fails second i before (before, false, some e)
  first_damaged :
      (left : LocalFile)
      → first.publish_fails ≡ some left
      → Demoted first reload_fails wait_fails second i before (left, false, some publish_failed)
  voting :
      (file : LocalFile) (e : CconfigError)
      → FileSets (election_mode_path i) (scalar (string "voter")) before file
      → ((e ≡ reload_failed) × (reload_fails ≡ true))
        ⊎ (((e ≡ wait_failed) × (wait_fails ≡ true))
            ⊎ IsKept second (patch_election_mode i election_mode_candidate) file e)
      → Demoted first reload_fails wait_fails second i before (file, true, some e)
  second_damaged :
      (left : LocalFile)
      → second.publish_fails ≡ some left
      → Demoted first reload_fails wait_fails second i before (left, true, some publish_failed)
  restored :
      (file : LocalFile)
      → FileSets (election_mode_path i) (scalar (string "candidate")) before file
      → Demoted first reload_fails wait_fails second i before (file, true, none)

module _ (first : FileAnswers) (reload_fails wait_fails : Bool) (second : FileAnswers)
    (i : CconfigInstance) where
  abbrev Outcomes : LocalFile → LocalFile × Bool × Option CconfigError → Type 0
  Outcomes = Demoted first reload_fails wait_fails second i

  abbrev restore : Config → Outcome Config
  restore = patch_election_mode i election_mode_candidate
