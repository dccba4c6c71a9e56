-- ===== src/Tasks.antt =====
-- tasks/tasks.go: background jobs with retries (Tasks.Job) and the runner's queue (Tasks.Runner).
pub mod Job
pub mod Runner
mod Tests
