-- ===== src/Chain.antt =====
-- Package chain (chain/*.go): the types that its files share.
pub mod Zrnt
pub mod Key
pub mod Entry
pub mod Cold
pub mod Hot
pub mod HotCold
mod Toy
mod Tests
