-- ===== src/Gossip/Cluster.antt =====
-- internal/cluster: merging of request tables, and the tracking of peers.
pub mod Merge
pub mod Writes
pub mod Convergence
pub mod Exchange
pub mod Same
pub mod Divergence
pub mod Tracker
pub mod Node
