-- ===== src/ApiValidation.antt =====
-- The validation module of the web API: modules/api-validation/lib/api_validation.c and its header
-- modules/api-validation/include/api_validation/api_validation.h.
pub mod Address
pub mod Errors
pub mod Text
mod Tests
