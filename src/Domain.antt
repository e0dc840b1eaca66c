-- ===== src/Domain.antt =====
-- The domain package (src/omp/domain): errors, value objects, the memory aggregate.
pub mod Errors
pub mod Enums
pub mod Values
pub mod Memory
pub mod Failures
