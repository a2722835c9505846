-- ===== src/Ledger.antt =====
-- lib/ledger: the messages that are exchanged with a Ledger device, and the device's operations.
pub mod Path
pub mod Frames
pub mod Chunks
pub mod Messages
pub mod Device
pub mod Comms
