-- ===== src/Job.antt =====
-- integration_queue_job/job.py: the job records and their states.
pub mod State
pub mod Record
pub mod Perform
pub mod Store
pub mod Create
