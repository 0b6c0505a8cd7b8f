-- ===== src/Loans.antt =====
-- The loan product (products/loans/api): its scorecard, its append-only store and its handlers. An
-- amount is a number of cents, a debt-to-income ratio a number of thousandths.
pub mod Risk
pub mod Store
pub mod Api
mod Tests
