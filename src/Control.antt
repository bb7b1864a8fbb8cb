-- ===== src/Control.antt =====
-- Package control (control/*.go) and the commands that an actor knows (control/actor/actor.go): sessions,
-- their calls, and the session processor.
pub mod Text
pub mod Lines
pub mod Types
pub mod Call
pub mod Processor
pub mod Overview
pub mod Prefixes
pub mod Session
pub mod Run
pub mod Script
pub mod Shape
pub mod Invariant
pub mod Reach
pub mod Steps
pub mod Toy
pub mod Tests
