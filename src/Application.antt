-- ===== src/Application.antt =====
-- The application package (src/omp/application): commands and ports, the in-memory adapter, the
-- service.
pub mod Models
pub mod Canonical
pub mod Store
pub mod Exec
pub mod Reembedding
pub mod Repository
pub mod Idempotency
pub mod WellFormed
pub mod Services
pub mod Transfer
