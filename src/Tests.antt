-- ===== src/Tests.antt =====
-- Runs of the models on concrete inputs, and the theorems applied to them.
pub mod Rooms
pub mod GrantsTests
pub mod QueueTests
pub mod PlaybackTests
pub mod RoomTests
pub mod RequestTests
pub mod VoiceTests
pub mod ClientTests
pub mod ManagerTests
pub mod PasswordTests
