-- ===== src/Handlers.antt =====
-- src/api_handlers.py: the routes.
pub mod Login
pub mod Rows
pub mod Pods
pub mod Save
pub mod Resume
pub mod Hibernate
