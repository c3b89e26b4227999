-- ===== src/Jobs.antt =====
-- The jobs of queue_job: the in-memory job (queue_job/job.py), its retries, and the controller
-- that runs it (queue_job/controllers/main.py).
pub mod State
pub mod Job
pub mod Retry
pub mod Run
pub mod Dependents
mod Tests
