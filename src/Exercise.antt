-- ===== src/Exercise.antt =====
-- The exercise on message passing (Exercise5-master/messagepassing), apart from the elevators.
pub mod Queue
mod Runs
