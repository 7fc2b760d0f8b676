-- ===== src/Triage.antt =====
-- tools/triage_tools.py: correlation, scoring and suppression.
pub mod Correlation
pub mod Score
pub mod Suppression
mod Samples
