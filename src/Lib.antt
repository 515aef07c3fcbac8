-- ===== src/Lib.antt =====
-- OpenTogetherTube: the server's room logic, its queue, and the permissions that server and client
-- share.
--
-- The program. A room (server/room.ts) holds the state of a shared player: its source, its clock, its
-- queue (server/videoqueue.ts), its users, their votes and their roles. Clients send requests, which
-- `processRequest` checks against the grants of the room (common/permissions.ts) and hands to a
-- handler; the room manager calls `update` once per second; timers end a gesture's lease, start a
-- prepared round and report departures. The room answers with messages to its clients.
--
-- The files. `Common` has the shared names, the tests on numbers, lists, integers, bits, maps and sets.
-- `Exceptions` has what the code throws. `Permissions` has the table of common/permissions.ts and its
-- masks, `Permissions/Grants` the class `Grants`, with what holds of it below. `Queue` has
-- server/videoqueue.ts. `Room` has server/room.ts: `State` the fields of the class, `Users` the roles,
-- `Clock` play, pause, seek and the end of a gesture, `Preparation` and `Holding` the handshake that
-- holds a source until its viewers have rendered it, `Gate` the buffer gate, `Dequeue` the step to the
-- next item, `Tick` `update`, `Requests` the handlers and `processRequest` (in `Requests/Dispatch`).
-- `Voice` has server/voice.ts and server/voice-budget.ts: the relays of the voice chat, their
-- credentials, their quotas and the choice of one. `Clients` has server/clientmanager.ts: the budget of
-- messages, the talkers of each room, and the lists of connections and of joined clients. `Manager` has
-- server/roommanager.ts: the list of the loaded rooms, and below it that it works as a map. `Passwords`
-- has server/room-password.ts: the slots for hashes, and who is let into a room with a password.
-- `Room/Consistency` has the invariant of the playback state, and below it that each operation keeps
-- it. `Tests` applies the theorems to concrete rooms, queues and grants. A definition keeps the name of
-- the method that it models, in this language's spelling; a large method is split where its branches
-- are.
--
-- The model. An operation takes the room and returns it; a handler returns a `Reply`, the room with or
-- without an exception, since nothing is rolled back when a handler throws. A call that awaits is a
-- plain call: the models run one request or tick after the other. Where what comes in between matters,
-- a call is several steps, one for each stretch between two waits: a join (`Clients/Joins`), a join of
-- the voice chat (`Clients/Presence`), a fetch of credentials (`Voice/Credentials`), a load of a room
-- (`Manager`) and a wait for a slot (`Passwords/Slots`). Time is a natural number of milliseconds.
-- Positions are integers in ticks of 10 µs and speeds are in hundredths, so that the
-- position of the clock is exact: JavaScript's rounding of floating-point numbers is left out, and a
-- length may be a number that is not finite. A `Set` is a list with no element twice, a `Map` an
-- association list in the order of insertion. A bit mask is a natural number; the masks of the table
-- have 29 bits, so the 32-bit operations of JavaScript do not overflow. No function runs on fuel: all
-- loops are structural.
--
-- Outside code is an argument: the clock, the random ids and the configuration (`Env`), the info
-- extractor (`Extractor`), the tests of a subtitle's URL (`SubtitleTests`), the accounts of the user
-- manager, the segments that SponsorBlock answers, `_.shuffle` and `_.orderBy`, the answers of Cloudflare
-- (`Cloudflare`), the counters of the voice budget (`BudgetStore`), what the storage has of a room
-- (`Stored`), and in `Passwords` Redis (`Redis`), Argon2, SHA-256 and the rate limiter.
--
-- Not modelled: logs and metrics, the diagnostics of a viewer, the synchronisation of dirty properties
-- with clients and Redis, the construction of a room from a snapshot, the notes of a room, a room whose
-- talkers all leave while a join of the voice chat waits, what the storage does, and the other parts of
-- the server and the client.
pub mod Common
pub mod Exceptions
pub mod Permissions
pub mod Queue
pub mod Room
pub mod Manager
pub mod Passwords
pub mod Voice
pub mod Clients
pub mod Tests
