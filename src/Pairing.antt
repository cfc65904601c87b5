-- ===== src/Pairing.antt =====
-- The pairing of the mobile app with the catalog: api/app-pairing-*.js and stores/pairing-store.mjs.
pub mod Constants
pub mod Storage
pub mod Messages
pub mod Store
pub mod Namespace
pub mod Http
pub mod Crypto
pub mod Configuration
pub mod Routes
pub mod Tests
pub mod RouteTests
