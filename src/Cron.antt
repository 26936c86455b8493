-- ===== src/Cron.antt =====
-- cron/: the parser of cron expressions, the calendar that they are matched against, the scheduler.
pub mod Field
pub mod Calendar
pub mod Expression
pub mod Scheduler
