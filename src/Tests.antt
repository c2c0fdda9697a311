-- ===== src/Tests.antt =====
-- Runs of the definitions on concrete inputs, and the theorems at such inputs.
mod Channels
mod Queues
mod Jobs
mod Graphs
mod Functions
mod Vacuum
