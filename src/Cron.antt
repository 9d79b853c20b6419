-- ===== src/Cron.antt =====
-- capabilities/xcron-capability-scheduler-native/src/xcron/capabilities/scheduler_native:
-- adapters/cron.py and cron_policy.py, the backend that keeps its jobs in a crontab.
pub mod Schedule
pub mod Block
pub mod Inspect
pub mod Machine
pub mod Adapter
