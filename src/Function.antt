-- ===== src/Function.antt =====
-- The SQL functions of internal/function.go and internal/function_array.go, with the null checks
-- that internal/function_bind.go puts in front of them.
pub mod Operators
pub mod Logic
pub mod Access
pub mod Array
