-- ===== src/Tests.antt =====
-- Runs of the model on small inputs, and the theorems at inputs that meet their hypotheses.
mod ConfigTests
mod ApplicationTests
mod ClusterTests
mod SchemaTests
mod CollectTests
mod VersionTests
mod ReplicasetTests
mod EtcdServer
mod StorageTests
mod WatchdogTests
mod SourceTests
mod RpmTests
mod TailTests
