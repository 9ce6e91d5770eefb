-- ===== src/Fragments.antt =====
-- Joining SQL fragments: packages/core/src/utils/join-sql-fragments.ts.
pub mod Join
pub mod Words
pub mod Splice
mod Tests
