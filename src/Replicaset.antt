-- ===== src/Replicaset.antt =====
-- cli/replicaset: replicaset.go, discovery.go, failover.go, electionmode.go, and how cconfig.go reads
-- and patches a cluster configuration.
pub mod Edits
pub mod Instances
pub mod Summary
pub mod LocalFiles
pub mod Patches
pub mod Masters
pub mod Cache
pub mod Source
pub mod Targets
pub mod Promoted
pub mod Roles
pub mod Topology
pub mod Merged
pub mod Reports
pub mod Eval
pub mod Application
pub mod Commands
pub mod Discovered
use tt.Prelude.{
  ℕ, zero, suc, ◌+◌, String, Bool, true, false, ◌||◌, Option, some, none, List, [], ◌∷◌, map,
  nat_eq, ltb, ◌==◌, if◌then◌else◌,
}
use tt.Scan.{lower_eq}
use tt.Config.{Config, ConfigError, not_map, not_exist, Result, ok, err, get, set}
use tt.Config.Data.{Scalar, string, Value, scalar, map_any, end, ConfigPath}
use tt.Cluster.{ClusterConfig, instantiate, find_instance}

pub data Failover : Type 0 where
  failover_unknown failover_off failover_manual failover_eventual failover_election
        failover_stateful failover_supervised :
      Failover

-- `ParseFailover`.
unfoldable pub parse_failover : String → Failover
parse_failover s =
    if lower_eq s "off" || lower_eq s "disabled"
    then failover_off
    else if lower_eq s "manual"
    then failover_manual
    else if lower_eq s "eventual"
    then failover_eventual
    else if lower_eq s "election" || lower_eq s "raft"
    then failover_election
    else if lower_eq s "stateful"
    then failover_stateful
    else if lower_eq s "supervised"
    then failover_supervised
    else failover_unknown

pub data ElectionMode : Type 0 where
  election_mode_unknown election_mode_off election_mode_voter election_mode_candidate
        election_mode_manual :
      ElectionMode

-- `ParseElectionMode`.
unfoldable pub parse_election_mode : String → ElectionMode
parse_election_mode s =
    if lower_eq s "off"
    then election_mode_off
    else if lower_eq s "voter"
    then election_mode_voter
    else if lower_eq s "candidate"
    then election_mode_candidate
    else if lower_eq s "manual"
    then election_mode_manual
    else election_mode_unknown

-- `ElectionMode.String`.
abbrev pub election_mode_text : ElectionMode → String
election_mode_text election_mode_unknown = "unknown"
election_mode_text election_mode_off = "off"
election_mode_text election_mode_voter = "voter"
election_mode_text election_mode_candidate = "candidate"
election_mode_text election_mode_manual = "manual"

pub record CconfigInstance : Type 0 where
  pub failover : Failover
  pub group_name : String
  pub replicaset_name : String
  pub name : String

pub data CconfigError : Type 0 where
  unexpected_failover : Failover → CconfigError
  unexpected_type : Value → CconfigError
  get_failed set_failed : ConfigError → CconfigError
  instance_not_found : String → CconfigError
  unexpected_election_mode : ElectionMode → CconfigError
  not_leader not_reached promote_failed : CconfigError
  decode_failed group_not_found replicaset_not_found role_exists : String → CconfigError
  roles_malformed no_path collect_failed cluster_failed pick_failed publish_failed reload_failed
        wait_failed :
      CconfigError

pub data Outcome {ℓ} (A : Type ℓ) : Type ℓ where
  done : A → Outcome A
  failed : CconfigError → Outcome A

infixl 10 ◌>>=◌
abbrev pub ◌>>=◌ {ℓ κ} : {A : Type ℓ} {B : Type κ} → Outcome A → (A → Outcome B) → Outcome B
done a >>= f = f a
failed e >>= f = failed e

-- A text of the merged configuration of an instance; `default` where nothing is set.
text_setting {ℓ} : {A : Type ℓ} → (String → A) → A → Result Value → Outcome A
text_setting parse default (ok (scalar (string s))) = done (parse s)
text_setting parse default (ok v) = failed (unexpected_type v)
text_setting parse default (err (not_exist path)) = done default
text_setting parse default (err (not_map path)) = failed (get_failed (not_map path))

-- `cconfigGetFailover`.
unfoldable pub cconfig_get_failover : ClusterConfig → String → Outcome Failover
unfolding text_setting
cconfig_get_failover cluster name =
    text_setting parse_failover failover_off
      (get ("replication" ∷ "failover" ∷ []) (instantiate cluster name))

-- `cconfigGetElectionMode`.
unfoldable pub cconfig_get_election_mode : ClusterConfig → String → Outcome ElectionMode
unfolding text_setting
cconfig_get_election_mode cluster name =
    text_setting parse_election_mode election_mode_candidate
      (get ("replication" ∷ "election_mode" ∷ []) (instantiate cluster name))

-- `getCConfigInstance`, whose loops are those of `FindInstance`.
unfoldable pub get_cconfig_instance : ClusterConfig → String → Outcome CconfigInstance
get_cconfig_instance cluster name = elim (find_instance cluster name) [
  | none ↦ failed (instance_not_found name)
  | some (group, replicaset) ↦ do
    failover ← cconfig_get_failover cluster name
    done (record {
      failover = failover;
      group_name = group;
      replicaset_name = replicaset;
      name = name;
    })
]

abbrev pub replicaset_setting : CconfigInstance → ConfigPath → ConfigPath
replicaset_setting i rest = "groups" ∷ i.group_name ∷ "replicasets" ∷ i.replicaset_name ∷ rest

abbrev pub instance_setting : CconfigInstance → ConfigPath → ConfigPath
instance_setting i rest = replicaset_setting i ("instances" ∷ i.name ∷ rest)

-- A `Set` whose error is handed on.
unfoldable pub set_or_fail : ConfigPath → Value → Config → Outcome Config
set_or_fail path value c =
    let (updated, error) = set path value c in
    elim error [ none ↦ done updated | some e ↦ failed (set_failed e) ]

-- `patchCConfigPromote`; the configuration that it returns next to an error is used by no caller.
unfoldable pub patch_promote : CconfigInstance → Config → Outcome Config
patch_promote i c = elim (i.failover) [
  | failover_off ↦
      set_or_fail (instance_setting i ("database" ∷ "mode" ∷ [])) (scalar (string "rw")) c
  | failover_manual ↦ set_or_fail (replicaset_setting i ("leader" ∷ [])) (scalar (string i.name)) c
  | _ ↦ failed (unexpected_failover i.failover)
]

-- `patchCConfigExpel`.
unfoldable pub patch_expel : CconfigInstance → Config → Outcome Config
patch_expel i c = set_or_fail (instance_setting i ("iproto" ∷ "listen" ∷ [])) (map_any end) c

-- `patchCConfigDemote`.
unfoldable pub patch_demote : CconfigInstance → Config → Outcome Config
patch_demote i c = elim (i.failover) [
  | failover_off ↦
      set_or_fail (instance_setting i ("database" ∷ "mode" ∷ [])) (scalar (string "ro")) c
  | _ ↦ failed (unexpected_failover i.failover)
]

-- `patchCConfigElectionMode`.
unfoldable pub patch_election_mode : CconfigInstance → ElectionMode → Config → Outcome Config
patch_election_mode i mode c =
    set_or_fail (instance_setting i ("replication" ∷ "election_mode" ∷ []))
      (scalar (string (election_mode_text mode))) c

-- What a file holds: the configuration that it decodes to, `none` if it does not decode.
abbrev pub LocalFile : Type 0
LocalFile = Option Config

-- Whether the file cannot be read, and, if the publication fails, what it leaves in the file:
-- os.WriteFile truncates the file first, so that any part of the text may stand there.
pub record FileAnswers : Type 0 where
  pub collect_fails : Bool
  pub publish_fails : Option LocalFile

-- `patchLocalCConfig`: the file afterwards, with the error.
unfoldable pub patch_local :
    FileAnswers → (Config → Outcome Config) → LocalFile → LocalFile × Option CconfigError
patch_local a patch none = (none, some collect_failed)
patch_local a patch (some held) =
    if a.collect_fails then (some held, some collect_failed) else elim (patch held) [
      | failed e ↦ (some held, some e)
      | done c ↦ elim (a.publish_fails) [
        | none ↦ (some c, none)
        | some left ↦ (left, some publish_failed)
      ]
    ]

-- `demoteElection` after its first patch.
unfoldable pub demote_voted :
    Bool
    → Bool
    → FileAnswers
    → CconfigInstance
    → LocalFile × Option CconfigError
    → LocalFile × Bool × Option CconfigError
demote_voted reload_fails wait_fails second i (file, some e) = (file, false, some e)
demote_voted reload_fails wait_fails second i (file, none) =
    if reload_fails
    then (file, true, some reload_failed)
    else if wait_fails
    then (file, true, some wait_failed)
    else (let (restored, error) =
          patch_local second (patch_election_mode i election_mode_candidate) file in
        (restored, true, error))

-- `demoteElection`: the file afterwards, `wasConfigPublished`, and the error. `reload_fails` and
-- `wait_fails` are what reloadCConfig and the wait for the read-only mode answer.
unfoldable pub demote_election :
    FileAnswers
    → Bool
    → Bool
    → FileAnswers
    → CconfigInstance
    → LocalFile
    → LocalFile × Bool × Option CconfigError
unfolding demote_voted
demote_election first reload_fails wait_fails second i file =
    demote_voted reload_fails wait_fails second i
      (patch_local first (patch_election_mode i election_mode_voter) file)

-- `cachedDiscoverer`. A round of `discovery` gives a result, and replicasets next to an error, too.
pub record CachedDiscoverer (R : Type 0) : Type 0 where
  pub cached : Bool
  pub replicasets : R

pub data CacheBehavior : Type 0 where
  use_cache skip_cache : CacheBehavior

-- `Discovery`: `answer` is what `discovery` would give, with whether it fails. The result says
-- whether it was asked.
unfoldable pub discovery :
    {R : Type 0}
    → CacheBehavior
    → R × Bool
    → CachedDiscoverer R
    → CachedDiscoverer R × ((R × Bool) × Bool)
discovery behavior (found, fails) c = elim (behavior) [
  | skip_cache ↦ (
    record { cached = if fails then false else true; replicasets = found },
    ((found, fails), true),
  )
  | use_cache ↦ if c.cached then (c, ((c.replicasets, false), false)) else (
    record { cached = if fails then false else true; replicasets = found },
    ((found, fails), true),
  )
]
