-- ===== src/Tests.antt =====
-- Tests of the routes at a concrete Cloud, and the theorems at concrete inputs.
pub mod Setting
pub mod Plain
mod Witnesses
mod Routes
mod Sessions
mod Application
mod Certificates
mod Numbers
mod Registry
mod Common
mod Transformers
mod Resume
mod Release
mod Payments
