-- ===== src/Transaction.antt =====
-- Transactions and savepoints: packages/core/src/transaction.ts, with the methods of
-- packages/core/src/abstract-dialect/query-interface-typescript.ts that send their queries and
-- `sequelize.transaction` of packages/core/src/sequelize-typescript.ts.
pub mod World
pub mod Methods
pub mod Start
pub mod Managed
pub mod Effects
pub mod Completion
pub mod Once
pub mod Environments
pub mod Runs
mod Tests
