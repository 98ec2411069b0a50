-- ===== src/Flink.antt =====
-- The Flink job: flink-job/src/main/java/com/company/delayedordersms.
pub mod Model
pub mod TimerService
pub mod Process
pub mod Job
