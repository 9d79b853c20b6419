-- ===== src/Kernel.antt =====
-- packages/xcron-kernel/src/xcron/kernel: the composition of capability providers.
pub mod Capability
pub mod Registry
pub mod Order
pub mod Topology
pub mod Pigeonhole
pub mod Fuel
pub mod Host
