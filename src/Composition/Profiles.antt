-- ===== src/Composition/Profiles.antt =====
-- What is true of every profile that composition/profile_composer.py puts together.
pub mod Pins
pub mod Emitted
pub mod Sealed
pub mod Review
pub mod Decisions
pub mod Effects
pub mod Policies
