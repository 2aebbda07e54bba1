-- ===== src/Patch.antt =====
-- internal/infrastructure/manifest/kustomize: the change of the images block of a kustomization
-- file. `Tags` has the choice of the entries and their new
-- tags, `Paths` the directories that a pattern matches.
pub mod Tags
pub mod Paths
pub mod Yaml
pub mod Scalar
pub mod Document
pub mod Block
pub mod File
