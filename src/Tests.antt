-- ===== src/Tests.antt =====
-- Tests of the definitions on concrete inputs, and the theorems at inputs that meet their hypotheses.
mod Fixtures
mod ServiceTests
mod LifecycleTests
mod UpstreamTests
mod CrawlerTests
mod WorkerFixtures
mod WorkerTests
mod SlotTests
mod SourceTests
mod BrowserTests
mod DialerTests
mod MigrationTests
