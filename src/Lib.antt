-- ===== src/Lib.antt =====
-- The core of tt, the command line utility of Tarantool: how the cluster configuration is kept,
-- merged and changed.
--
-- Config models lib/cluster/config.go: a configuration is a tree of maps (Config/Data.antt), and
-- `Set`, `Get`, `Elems`, `ForEach` and `Merge` are `set`, `get`, `elems`, `for_each` and `merge` of
-- Config.antt. Config/Tree.antt describes a tree without loops or errors, Config/Access.antt holds
-- `Get` and `Set` against it, Config/Visits.antt with its children, Config/Merge.antt,
-- Config/Free.antt, Config/Trees.antt and Config/Layers.antt are about `Merge`, and
-- Config/Cast.antt about the cast of decoded maps.
-- Cluster models lib/cluster/cluster.go: the scopes of a cluster and its instances. Its children
-- prove which scope a value comes from (Cluster/Priority.antt), that the loops agree
-- (Cluster/Search.antt), and what an update hands to the decoder (Cluster/Update.antt).
-- Schema models lib/cluster/validators.go and lib/cluster/schema.go: `Validate` of every validator
-- is `validate`, with its errors in Schema/Errors.antt; Scan.antt scans numbers. Schema/Shape.antt
-- says what a validated value looks like, Schema/Loops.antt and Schema/Scalars.antt treat the loops
-- and the scalars, Schema/Accepted.antt puts them together, and Schema/Report.antt is about a whole
-- configuration, whose validation is in Schema/Paths.antt.
-- Collect models lib/cluster/env.go, lib/cluster/yaml.go and cli/cluster/cluster.go: the collectors
-- give configurations, which `get_cluster_config` and `get_instance_config` merge by priority, with
-- the environment collector in Collect/Env.antt and the order in Collect/Order.antt.
-- Version models cli/version/version_tools.go, with the order in Version/Order.antt and
-- Version/Precedes.antt and sorting in Version/Sort.antt; Regex.antt runs the
-- regular expressions of the code, and FindNamedMatches of cli/util/util.go.
-- Search models cli/search/search.go and cli/search/bundle.go: Search/Tags.antt is about the tags
-- of a repository and Search/Bundles.antt about bundles. It reads versions with `parse` of Version.
-- Replicaset models a part of cli/replicaset: the replicasets that are discovered, in
-- Replicaset/Instances.antt, the patches that promote, demote and expel an instance, in
-- Replicaset/Patches.antt, the type of a master, in Replicaset/Masters.antt, and the cache of the
-- discovery, in Replicaset/Cache.antt. The patches are `set` of Config, and the settings are read
-- from `instantiate` of Cluster. Replicaset/Source.antt models cli/replicaset/configsource.go:
-- `promote`, `demote` and `expel` collect a configuration, choose the key to patch and publish it,
-- with what a patch reaches in Replicaset/Targets.antt and what is published in
-- Replicaset/Promoted.antt, and Replicaset/Roles.antt the addition of a role. A local file is
-- what it decodes to, and what `patchLocalCConfig` leaves in it is in Replicaset/LocalFiles.antt: a
-- publication that fails may leave any file, since os.WriteFile truncates it first.
-- The application of the centralized configuration, cli/replicaset/cconfig.go:
-- Replicaset/Topology.antt has the topologies that instances report and their merge,
-- Replicaset/Eval.antt the loops of cli/replicaset/eval.go over the instances with the discovery
-- and the reload, and Replicaset/Application.antt `Promote`, `Demote` and `Expel` with what they
-- publish and who reloads. Replicaset/Merged.antt, Replicaset/Reports.antt and
-- Replicaset/Summary.antt are about the merge, Replicaset/Discovered.antt about the discovery, and
-- Replicaset/Edits.antt and Replicaset/Commands.antt about the commands.
-- Storage models lib/cluster/storages.go, lib/cluster/integrity.go, lib/cluster/file.go,
-- lib/cluster/etcd.go and lib/cluster/tarantool.go: the keys of a configuration with its hashes and
-- signatures (Storage.antt, Storage/Paths.antt, Storage/HashMap.antt, with the cutting of texts in
-- Texts.antt), the collectors and publishers of etcd (Storage/Publish.antt, Storage/Signed.antt,
-- Storage/Exchange.antt) and those of Tarantool (Storage/Tarantool.antt, with
-- Storage/Replies.antt). The client of etcd is the record `Etcd` of Storage/Etcd.antt, and
-- `Documented` is what its documentation says. The loops that retry a transaction run over a list
-- of rounds, those that begin before the context is done, each with what other clients do in it and
-- whether a call fails; a failing call does not reach the server. Storage/Cas.antt,
-- Storage/Swap.antt, Storage/Loop.antt and Storage/Whole.antt are about `EtcdAllDataPublisher`,
-- Storage/Key.antt and Storage/Sealed.antt about `EtcdKeyDataPublisher`, with lemmas in
-- Storage/SignOps.antt and Storage/Named.antt; Storage/Puts.antt, Storage/Exchanged.antt and
-- Storage/Published.antt are about `IntegrityEtcdAllDataPublisher`, Storage/Checked.antt about
-- `IntegrityEtcdKeyCollector`, and Storage/Unnoticed.antt about `TarantoolKeyDataPublisher`.
-- Tests/EtcdServer.antt is a server that does what is documented.
-- Watchdog models cli/running/watchdog.go: `Start`, `startSignalHandling` and
-- `startIntegrityChecks` are threads whose steps, with the events of the system, are the steps of
-- one state, and `run` runs an interleaving. Watchdog/Inv.antt has the invariant,
-- Watchdog/Stop.antt, Watchdog/Ends.antt and Watchdog/End.antt say what a stop signal does.
-- Rpm models the packing of RPM packages, cli/pack/rpm_tagset.go with cli/pack/rpm_const.go and the
-- buffers of cli/pack/rpm_pack.go: `packTagSet` is `pack_tag_set`, over bytes as numbers, with the
-- integers in Rpm/Words.antt. Rpm/Reader.antt is the description of the format as a reader, against
-- which Rpm/Values.antt, Rpm/Align.antt, Rpm/Loop.antt and Rpm/RoundTrip.antt prove the packing.
-- Rpm/Header.antt, Rpm/Files.antt and Rpm/Lead.antt model cli/pack/rpm_header.go,
-- cli/pack/rpm_lead.go and cli/pack/rpm_signature.go, and Rpm/Dirs.antt and Rpm/Located.antt are
-- about the directories of `getFilesInfo`.
-- Tail models `newTailReader` of cli/tail/tail.go: Tail/Walk.antt and Tail/Blocks.antt relate its
-- loops over blocks of a file to a walk over its positions, and Tail/Last.antt says which lines it
-- finds. The fuel of the outer loop is the offset that it starts from, which each round lowers.
--
-- A Go map is the list of its entries in the order of one `range`; the theorems hold for every
-- order. Loops over paths and lists are structural recursions, so that no fuel is needed.
-- Not modelled: yaml.v3, whose decoding is an argument of the functions that call it; the sharing
-- of one map by two configurations; input and output, the connection to etcd, archives,
-- installation, consoles and templates, which are glue over the operating system and other
-- programs.
mod Prelude
mod Texts
mod Scan
mod Regex
pub mod Config
pub mod Cluster
pub mod Schema
pub mod Collect
pub mod Storage
pub mod Watchdog
pub mod Version
pub mod Search
pub mod Replicaset
pub mod Rpm
pub mod Tail
mod Tests
