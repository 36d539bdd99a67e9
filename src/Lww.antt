-- ===== src/Lww.antt =====
-- gateway/cluster/drain_state.py and membership_state.py: last-writer-wins maps. What the two
-- classes share is in Version; the proofs are in Join, Converge and Exchange, and below each class.
pub mod Version
pub mod Join
pub mod Converge
pub mod Exchange
mod Tests
pub mod Drain
pub mod Members
