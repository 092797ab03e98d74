-- ===== src/Auth.antt =====
-- src/authentication: sessions as Cloud keeps them, the handlers' decorator, login and logout.
pub mod Session
pub mod Service
pub mod Transform
