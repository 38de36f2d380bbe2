-- ===== src/Auth.antt =====
-- api/services/auth_service.py and what it keeps of accounts: sessions, and verification codes.
pub mod Sessions
pub mod Verification
