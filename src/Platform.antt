-- ===== src/Platform.antt =====
-- What every module of the backend stands on: errors and transactions, text, and the writer of
-- domain events.
pub mod Errors
pub mod Text
pub mod Events
pub mod Privacy
pub mod Idempotency
pub mod Auth
