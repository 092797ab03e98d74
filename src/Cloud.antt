-- ===== src/Cloud.antt =====
-- The boundary to Cloud: src/cloud_client/client.py and the wrappers in src/db_ops.
pub mod Client
pub mod Ids
pub mod Models
pub mod Catalog
pub mod Rows
