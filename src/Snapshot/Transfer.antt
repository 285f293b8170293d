-- ===== src/Snapshot/Transfer.antt =====
-- The entities of a frame from Sv_EmitEntities of src/server/sv_entity.c to Cl_ParseEntities of
-- src/client/cl_entity.c.
pub mod Places
pub mod Bytes
pub mod Turns
pub mod Items
pub mod Lists
pub mod Steps
pub mod RoundTrips
mod Tests
