-- ===== src/Runner.antt =====
-- integration_queue_job/jobrunner: the channels and the runner.
pub mod Errors
pub mod Config
pub mod PriorityQueue
pub mod ChannelJob
pub mod ChannelQueue
pub mod Channel
pub mod ChannelTree
pub mod Manager
pub mod Database
pub mod Request
pub mod QueueJobRunner
