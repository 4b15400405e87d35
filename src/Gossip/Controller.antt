-- ===== src/Gossip/Controller.antt =====
-- internal/controller/controller.go: the state of a controller and its operations.
pub mod State
pub mod Requests
pub mod Motion
pub mod Handlers
pub mod Events
pub mod Frames
pub mod Cases
pub mod Safety
pub mod Lamps
pub mod Loops
pub mod Service
pub mod Livelock
pub mod Stuck
pub mod Sound
pub mod Logged
