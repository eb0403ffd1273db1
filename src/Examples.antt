-- ===== src/Examples.antt =====
-- The theorems at concrete inputs, and the data that these share: a platform, a table of two columns
-- with an index, and a database with that table.
pub mod Data
mod Tables
mod Engines
mod Codecs
mod Pools
mod Parsers
mod Statements
