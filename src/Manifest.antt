-- ===== src/Manifest.antt =====
-- internal/model/manifest.go: the metadata of the images of a kustomization file, kept in a comment
-- block. `Document` has the document, `Comment` the lines of the block.
pub mod Document
pub mod Comment
