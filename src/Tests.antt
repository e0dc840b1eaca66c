-- ===== src/Tests.antt =====
-- Concrete commands and stores, and the theorems applied to them.
pub mod Examples
mod AdminExamples
pub mod Cloud
pub mod CloudExamples
mod CloudWitnesses
mod ReembeddingExamples
mod Witnesses
