-- ===== src/Sql.antt =====
-- How parameters and values are written into SQL texts: packages/core/src/utils/sql.ts, the quoting
-- functions it works with (utils/dialect.ts, the `dialect.ts` of each dialect package).
pub mod Chars
pub mod Collector
pub mod Dialect
pub mod Scan
pub mod Reserved
pub mod Escape
pub mod Binds
pub mod Loop
mod Tests
