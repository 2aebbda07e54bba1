-- ===== src/Tests.antt =====
-- Concrete rules, events and ports, and what the development says of them. `World` has the data and
-- the stand-ins for Go's library, the other modules the runs.
pub mod World
pub mod Rules
pub mod Plans
pub mod Updates
pub mod Tags
pub mod Texts
pub mod Blocks
pub mod Files
pub mod Queues
pub mod Registries
pub mod Deliveries
