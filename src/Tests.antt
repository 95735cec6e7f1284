-- ===== src/Tests.antt =====
-- The theorems at concrete inputs.
mod Values
mod Windows
mod Queries
mod Transform
