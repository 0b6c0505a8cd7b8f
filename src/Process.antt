-- ===== src/Process.antt =====
-- The process API (products/process/api): the routing of an analyst's question and the composed view
-- of a customer. A balance is a number of cents.
pub mod Words
pub mod Routing
pub mod Overview
mod Tests
