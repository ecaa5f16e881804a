-- ===== src/TypeParser.antt =====
-- shared/type_parser.rs: from a type name to a `ColumnType`. A `&str` is its UTF-8 bytes.
pub mod Text
pub mod Keywords
pub mod Parser
pub mod Nesting
