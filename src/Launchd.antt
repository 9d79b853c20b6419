-- ===== src/Launchd.antt =====
-- The launchd backend of the scheduler: adapters/launchd.py of the capability
-- capabilities/xcron-capability-scheduler-native/src/xcron/capabilities/scheduler_native.
pub mod Calendar
pub mod Schedule
pub mod Plist
