-- ===== src/Worker.antt =====
-- internal/worker: the pipeline of actions that runs after a request was captured.
pub mod Codec
pub mod Executors
pub mod Forward
pub mod Pipeline
pub mod Execution
pub mod Completion
pub mod Report
