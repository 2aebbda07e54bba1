-- ===== src/Registry.antt =====
-- internal/infrastructure/registry: the decoder of events and the client that reads images.
pub mod Ecr
pub mod Oci
