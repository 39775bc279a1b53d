-- ===== src/Tests.antt =====
-- Runs of the definitions on concrete inputs, and the theorems applied there.
pub mod Run
pub mod Words
pub mod Lists
pub mod Start
pub mod Screen
pub mod Limits
