-- ===== src/Containers.antt =====
-- Containers: src/containers with its data models, and the helpers of src/common that serve it.
pub mod Names
pub mod Resources
pub mod ErrorMessage
pub mod Models
pub mod Transform
pub mod Client
pub mod Service
pub mod Certificates
pub mod CertificateFiles
