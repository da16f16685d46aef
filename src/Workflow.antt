-- ===== src/Workflow.antt =====
-- internal/controller/workflow, api/condition.go and internal/dryrun/error_queue.go: what every
-- legacy reconciler reports with.
pub mod Conditions
pub mod ErrorQueue
pub mod Results
pub mod Context
pub mod Storing
mod Tests
