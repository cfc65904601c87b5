-- ===== src/Catalog.antt =====
-- The versioned catalog: api/catalog-*.js and stores/catalog-bucket.mjs.
pub mod Result
pub mod Bucket
pub mod State
pub mod Snapshot
pub mod Seed
pub mod Tests
pub mod Settings
pub mod Publish
pub mod PublishTests
