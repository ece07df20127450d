-- ===== src/Tests.antt =====
-- The theorems at concrete inputs, and runs of the definitions, module by module.
mod ClockCacheTests
mod LabelsTests
mod ElectionTests
mod SamplesTests
mod IngestorTests
mod InserterTests
mod PipelineTests
mod DeliveryTests
mod JsonTests
mod QueryTests
mod MigrateTests
mod ReaderTests
mod ApiTests
mod ConnectorTests
