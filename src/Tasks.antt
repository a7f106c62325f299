-- ===== src/Tasks.antt =====
-- src/services/tasks: the rate limiter and the dispatch of Cloud Tasks.
pub mod TokenBucket
pub mod Items
pub mod Dispatch
pub mod Tick
