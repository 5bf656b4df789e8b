-- ===== src/Runtime/FlightRecorder.antt =====
-- runtime/flight_recorder.py: `FlightRecorder`, which writes the steps, events and checkpoints of a run.
pub mod Desk
pub mod Runs
pub mod Events
pub mod Keeps
pub mod Once
pub mod Calls
pub mod Refused
