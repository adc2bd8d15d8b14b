-- ===== src/Devices.antt =====
-- Drivers of src/drivers/ with a state of their own; a byte that a port gives is an argument.
pub mod Mouse
pub mod Clock
pub mod Terminal
mod Tests
