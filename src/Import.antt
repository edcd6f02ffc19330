-- ===== src/Import.antt =====
-- packages/business-logic/src/import: bulk import of products.
pub mod Csv
mod Tests
