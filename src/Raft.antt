-- ===== src/Raft.antt =====
-- The package store/raft: commands that every node applies to its copy of the data, and the store
-- that hands them to the leader.
pub mod Machine
pub mod Cluster
pub mod Redirect
pub mod Node
pub mod Laws
pub mod Refinement
pub mod Address
pub mod Membership
pub mod Log
pub mod Snapshot
pub mod Replicas
