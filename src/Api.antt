-- ===== src/Api.antt =====
-- api/src: the HTTP service that takes requests in and enqueues them for triage.
pub mod Problem
pub mod Logging
pub mod Queue
pub mod Intake
pub mod SeedIngest
pub mod Server
pub mod Sqs
pub mod IndexInfo
pub mod Env
pub mod Contract
pub mod Pgmq
