-- ===== src/Query.antt =====
-- How the scans of an analyzed query become SQL statements: the context of the transformation
-- (internal/querybuilder_context.go), the coordinator and the transformers of the scans.
pub mod Context
pub mod Build
pub mod Data
pub mod Action
pub mod OrderItems
pub mod Environment
pub mod Function
pub mod Call
pub mod Scan
pub mod Expression
pub mod Validate
pub mod Coordinator
pub mod Change
pub mod Kept
