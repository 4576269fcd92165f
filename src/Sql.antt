-- ===== src/Sql.antt =====
-- What the SELECT statements of the backend mean. PostgreSQL and SQLAlchemy are not part of the
-- repository: a statement is a value, and the database that answers it is an `Engine`, of which
-- `IsEngine` states the documented meaning of WHERE, GROUP BY, HAVING, DISTINCT, ORDER BY, LIMIT.
-- Rows that the ordering does not tell apart come in any order, and so do the elements of an
-- aggregate.
pub mod Statement
pub mod Answers
pub mod Reference
pub use Statement.*
