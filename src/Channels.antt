-- ===== src/Channels.antt =====
-- The job channels of queue_job (queue_job/jobrunner/channels.py).
pub mod PriorityQueue
pub mod Job
pub mod Queue
pub mod Channel
pub mod Tree
pub mod Manager
pub mod Config
mod Tests
