-- ===== src/Game.antt =====
-- The game module, app/game/*.py.
pub mod Messages
pub mod Score
pub mod World
pub mod Rooms
pub mod Play
pub mod Answers
pub mod Board
pub mod RoomState
pub mod Handlers
pub mod Clients
pub mod History
pub mod Endpoints
pub mod Lifetimes
pub mod Admission
pub mod Connections
