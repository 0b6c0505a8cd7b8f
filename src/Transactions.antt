-- ===== src/Transactions.antt =====
-- The transactions product (products/transactions): the validation of its pipeline.
pub mod Validate
pub mod Bundle
mod Tests
