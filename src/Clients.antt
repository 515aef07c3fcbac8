-- ===== src/Clients.antt =====
-- server/clientmanager.ts: the connections of the server. `Budget` has the budget of messages of a
-- connection, `Presence` who talks in which room, `Joins` how a client comes into a room and leaves.
pub mod Budget
pub mod Presence
pub mod Joins
