-- ===== src/Delay.antt =====
-- integration_queue_job/delay.py: graphs of jobs that wait for each other.
pub mod Graph
pub mod Delayable
pub mod Connect
pub mod Launch
