-- ===== src/Jobs.antt =====
-- packages/schema/src/vault: the stores of the jobs that scan and redact files.
pub mod RedactJobs
pub mod ScanJobs
pub mod Cron
pub mod ScheduledScans
pub mod Scheduler
