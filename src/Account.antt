-- ===== src/Account.antt =====
-- runtime/account.
pub mod Errors
pub mod Text
pub mod Codes
pub mod Store
