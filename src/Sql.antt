-- ===== src/Sql.antt =====
-- src/sql: the statements, the identifiers that the parser and the tables normalise, and the parser.
pub mod Ast
pub mod Identifier
pub mod Quoted
pub mod Split
pub mod Outcome
pub mod Literal
pub mod Clauses
pub mod Advanced
pub mod Select
pub mod Statements
pub mod ColumnLists
pub mod Parser
