-- ===== src/LogStore.antt =====
-- The log store: modules/log-store/lib/log_store.c and its header
-- modules/log-store/include/log_store/log_store.h.
pub mod ByteOrder
pub mod Base64
pub mod Types
pub mod Ring
pub mod State
pub mod Append
pub mod Record
pub mod Filter
pub mod Reader
pub mod Cursor
mod Tests
mod ReaderTests
