-- ===== src/Chain/Tests.antt =====
-- Tests of package chain, and its theorems at concrete inputs.
mod Cold
mod Hot
mod Whole
