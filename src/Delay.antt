-- ===== src/Delay.antt =====
-- Delaying jobs that depend on each other (queue_job/delay.py).
pub mod Graph
pub mod Delayables
pub mod Delaying
mod Tests
