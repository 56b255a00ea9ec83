-- ===== src/AsyncJob.antt =====
-- airbyte_cdk/sources/declarative/async_job: the jobs that an API runs for a stream.
pub mod JobTracker
pub mod Partition
pub mod Lookahead
pub mod Api
pub mod Starting
pub mod Orchestrator
mod Tests
