-- ===== src/Runtime/Artifacts.antt =====
-- runtime/artifacts.py: what is written of the payloads of events and checkpoints.
pub mod Redaction
pub mod Chunks
pub mod Slices
pub mod Reassembly
pub mod Writing
pub mod Reading
pub mod Short
pub mod Secrecy
