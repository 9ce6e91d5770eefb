-- ===== src/Where.antt =====
-- Where clauses: packages/core/src/abstract-dialect/where-sql-builder.ts.
pub mod Logic
pub mod Grammar
pub mod Meaning
pub mod Tree
pub mod Writes
pub mod Truth
pub mod Operand
pub mod Nested
pub mod Operators
pub mod Format
pub mod NestedTruth
pub mod Conditions
pub mod Single
pub mod Refusal
pub mod JsonPath
pub mod Nulls
pub mod Whole
mod Tests
