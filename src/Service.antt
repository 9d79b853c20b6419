-- ===== src/Service.antt =====
-- service.py, registry.py, ports.py and state_store.py of
-- capabilities/xcron-capability-scheduler-native/src/xcron/capabilities/scheduler_native: the
-- control flow over the backends, which are reached through an interface.
pub mod World
pub mod Ports
pub mod Registry
pub mod Validate
pub mod Controller
pub mod Details
