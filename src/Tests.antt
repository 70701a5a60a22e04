-- ===== src/Tests.antt =====
-- Concrete inputs: a database server, a database and requests, and the theorems at them.
pub mod Server
pub mod Fixture
pub mod StaffRuns
pub mod PurgeRuns
pub mod WebRuns
pub mod ApiRuns
pub mod SqsRuns
mod SeedRuns
mod PageRuns
mod QueueRuns
mod RaceRuns
mod ServerRuns
mod SqsStorage
