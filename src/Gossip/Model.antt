-- ===== src/Gossip/Model.antt =====
-- internal/model/types.go: the data that the other packages share.
pub mod Kinds
pub mod Version
pub mod Key
pub mod Clock
pub mod Table
pub mod Soft
