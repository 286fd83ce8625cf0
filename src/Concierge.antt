-- ===== src/Concierge.antt =====
-- apps/api/src/concierge: the human review of answers. The settings that an admin edits (Config), the
-- queueing of a weak answer (Queue), the reviewer's verdict and escalation (Review), what a verdict
-- feeds back into the knowledge base (Flywheel) and the delivery of a refined answer (Delivery).
mod Model
pub use Model.*
pub mod Config
pub mod Queue
pub mod Flywheel
pub mod Delivery
pub mod Review
pub mod Outcome
pub mod Effects
pub mod Diagram
pub mod Cases
pub mod Escalation
pub mod Calls
pub mod Admission
pub mod Moves
pub mod Simulation
pub mod Footprint
pub mod Gate
pub mod Cap
pub mod Flags
pub mod Verdict
mod Tests
