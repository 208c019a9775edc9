-- ===== src/Actors/Invariant.antt =====
-- The invariant of an actor, and that the steps of the activations keep it.
pub mod Defs
pub mod Moves
pub mod Guards
