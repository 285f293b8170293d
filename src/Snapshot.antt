-- ===== src/Snapshot.antt =====
-- Delta-compressed snapshots of the game, from src/server/sv_entity.c to src/client/cl_entity.c.
pub mod PlayerState
pub mod Emit
pub mod Backup
pub mod Parse
pub mod Transfer
pub mod Frame
mod Tests
mod FrameTests
