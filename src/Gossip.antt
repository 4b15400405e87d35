-- ===== src/Gossip.antt =====
-- The distributed controller (Annen_heis/new_heis).
pub mod Model
pub mod Cluster
pub mod Assigner
pub mod Driver
pub mod Controller
pub mod Process
pub mod System
pub mod Mock
mod Examples
mod Elevators
mod Meeting
mod Nodes
mod Cars
mod Mocks
mod Callers
