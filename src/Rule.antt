-- ===== src/Rule.antt =====
-- internal/model/rule.go: rules that map a pushed image onto manifest directories. `Types` has the
-- records, `Path` the paths and patterns, `Url` the manifest URLs, `Tag` the tag patterns, `Compile`
-- the compilation, `Select` the choice of rules for an event and `Location` the expansion of
-- captures. The modules below these hold their proofs.
pub mod Types
pub mod Path
pub mod Url
pub mod Tag
pub mod Compile
pub mod Select
pub mod Location
