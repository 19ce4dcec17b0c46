-- ===== src/Search.antt =====
-- crates/compact-core/src/search: compressed posting lists, the dictionary of their terms, and the
-- queries over it.
pub mod Postings
pub mod Dictionary
pub mod Query
