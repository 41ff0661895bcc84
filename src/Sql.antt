-- ===== src/Sql.antt =====
-- The compilation of scopes to SQL: src/common/src/utils/sql.rs.
pub mod Compile
mod Meaning
mod Remainder
mod RemainderLaws
mod PatternLaws
mod OneEqualsOne
mod Text
mod TextLaws
mod ScopeLaws
mod Examples
