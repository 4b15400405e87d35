-- ===== src/Station.antt =====
-- The program of the repository's root (main.go and the packages beside it).
pub mod Elevio
pub mod Elevator
pub mod Poll
pub mod Fsm
pub mod HallAssigner
pub mod Timer
pub mod Peers
pub mod Broadcast
pub mod World
pub mod Loop
pub mod Partial
pub mod Unassigned
pub mod Bare
pub mod Serving
pub mod Cost
pub mod Signals
pub mod Door
pub mod Visible
pub mod Bounds
pub mod Total
pub mod NoPanic
pub mod Rows
pub mod Kept
pub mod Buttons
pub mod Cleared
pub mod Exchange
pub mod Idle
pub mod Waiting
pub mod Timely
mod Examples
mod Stops
