-- ===== src/Containers/Service.antt =====
-- `class ContainerService` of src/containers/containers_service.py, in two parts.
pub mod Rows
pub mod Pods
unfoldable pub use Rows.*
unfoldable pub use Pods.*
