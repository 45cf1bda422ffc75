-- ===== src/Vfs.antt =====
-- The in-memory filesystem, src/vfs/nodes.rs and src/vfs/mod.rs.
pub mod Metadata
pub mod Nodes
pub mod Arena
pub mod Resolve
pub mod Change
pub mod Copy
pub mod Tree
pub mod Valid
pub mod Effect
mod Tests
