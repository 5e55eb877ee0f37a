-- ===== src/Store.antt =====
-- apps/web/src/lib/store.ts, a module for each group of methods, over the tables of
-- apps/web/src/lib/migrations.ts.
pub mod Schema
mod Order
pub mod Enrollment
pub mod Sessions
pub mod Commands
pub mod Usage
pub mod Catalog
pub mod Storage
