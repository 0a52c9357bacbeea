-- ===== src/Mib.antt =====
-- The MIB tree, core/mib_tree.c: group nodes over sorted arrays of sub-identifiers, and instance
-- nodes that hold the number of a Lua handler.
pub mod Node
pub mod Insert
pub mod Delete
pub mod Stored
pub mod Search
pub mod SearchNext
