-- ===== src/Frame.antt =====
-- Frame headers as the driver reads and writes them: dot15d4-driver/src/frame.
pub mod Modes
pub mod Control
pub mod Addressing
pub mod Filter
pub mod Radio
mod Examples
