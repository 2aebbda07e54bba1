-- ===== src/Label.antt =====
-- internal/model/label_value.go and labels.go: the labels of an image, normalised where they enter.
-- `Value` has the functions on one value, `Extra` the custom labels; the record is here.
pub mod Value
pub mod Extra
pub mod Labels
