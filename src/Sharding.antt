-- ===== src/Sharding.antt =====
-- pkg/sharding/sharding.go: the partition of a key, and the ring of the cluster's nodes.
pub mod Partition
pub mod Ring
mod Tests
