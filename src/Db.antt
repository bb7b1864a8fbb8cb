-- ===== src/Db.antt =====
-- The databases of blocks and states (chain/db/*/*.go).
pub mod Table
pub mod Blocks
pub mod States
pub mod Registry
pub mod Tests
