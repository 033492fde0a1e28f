-- ===== src/Database.antt =====
-- internal/infrastructure/db/sqlite: the repositories, with the queries of sqlc/query.sql.
pub mod Pairs
pub mod Trades
