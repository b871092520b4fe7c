-- ===== src/Store.antt =====
-- internal/store: the tables of internal/store/schema.go as lists of rows, in the order in which they
-- were inserted. An operation takes the fault of the database driver, if it meets one, and the clock
-- in Unix nanoseconds; a failed statement changes no table.
pub mod Rows
pub mod Sessions
pub mod Events
pub mod Escalations
pub mod Agents
pub mod Audit
