-- ===== src/Model.antt =====
-- internal/model: the errors (error.go), the events and image references (event.go, image.go).
pub mod Errors
pub mod Image
