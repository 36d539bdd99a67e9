-- ===== src/Cluster.antt =====
-- gateway/cluster/events.py and coordinator.py: the events of the replication, and the coordinator
-- of one replica.
pub mod Event
mod Json
mod Codec
pub mod Sync
pub mod Coordinator
mod Sequence
mod Folds
mod Merging
mod Flags
mod Reach
mod Wire
mod Membership
mod Tests
