-- ===== src/WebApi.antt =====
-- The core of the web API: modules/web-api/lib/json_writer.c.
pub mod JsonWriter
mod Tests
