-- ===== src/Cloud.antt =====
-- src/omp/cloud: the workers and the stores of the hosted service, as they run in development.
pub mod Access
pub mod Admin
pub mod Cipher
pub mod EncryptedMemory
pub mod Envelope
pub mod Recovery
pub mod Reembedding
pub mod Worker
