-- ===== src/Serve.antt =====
-- The chain commands that serve blocks to peers and fetch them: control/actor/chain/chcmd/serve and
-- control/actor/chain/chcmd/sync.
pub mod Types
pub mod Range
pub mod Root
pub mod Sync
pub mod Tests
