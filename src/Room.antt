-- ===== src/Room.antt =====
-- server/room.ts: the room. `State` has its record; each further module has a part of the class, and
-- the modules below it what holds of that part.
pub mod State
pub mod Clock
pub mod Users
pub mod Preparation
pub mod Holding
pub mod Gate
pub mod Dequeue
pub mod Tick
pub mod Consistency
pub mod Requests
