-- ===== src/Answers.antt =====
-- What the web backend says about an analyst's answer (ui/masked_results.py, ui/analytics_denial.py):
-- columns that came back empty, and why a request was refused.
pub mod Masked
pub mod Denial
