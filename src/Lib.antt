-- ===== src/Lib.antt =====
-- fsql, an embedded SQL database: a model of its storage, its codecs, its engine
-- and its connection pool, and theorems.
--
-- The program (paths from the repository's root). src/engine.rs takes a statement, runs it on the
-- active catalog (the committed one, or the copy that `BEGIN` made) and, outside a transaction,
-- writes the whole catalog to the database file. src/storage/catalog.rs holds the tables by name and
-- prints and reads the file; src/storage/codec.rs does this for one value. src/storage/table.rs is a
-- table: the rows by number, the map of the primary key, secondary indexes and full-text indexes,
-- all rebuilt after each change. src/sql/ast.rs has the statements, src/identifier.rs the
-- normalising of names, src/logging.rs the options and the logs, src/query.rs the results.
-- src/pool.rs lets several connections share one database: each has its own copy of the tables in a
-- transaction, locks the rows that it changes, and merges them into the committed tables at the end.
--
-- The files.
--   Common, Ordered, BTreeMap, Strings, Utf8, Number, Exec: shared helpers, and what the program uses
--     of the standard library: ordered maps as sorted association lists, strings as lists of
--     scalar values, number formatting and parsing, methods on `&mut self` that may fail
--     (`Exec S A`, the state beside the result).
--   Common/Errors: `Error` and `Result` of src/error.rs.
--   Value, Sql/Ast, Sql/Identifier: src/value.rs, src/sql/ast.rs, src/identifier.rs.
--   Sql/*: src/sql/parser.rs. Sql/Split: `split_top_level` and `split_once_top_level`. Sql/Quoted:
--     `parse_quoted_string`. Sql/Outcome: what a call of the parser comes to, a panic included.
--     Sql/Literal: `parse_value`, and the values of an `INSERT`. Sql/Clauses: the projection,
--     `parse_filter`, `parse_order`. Sql/Advanced: `is_advanced_…`. Sql/Select: `parse_select` and
--     `is_advanced_select`. Sql/Statements: `CREATE TABLE`, `UPDATE`, `DELETE`. Sql/ColumnLists:
--     `CREATE INDEX`, `INSERT`. Sql/Parser: `parse_sql_with_dialect`, and the statements that are kept
--     as text. Sql/*/*: proofs.
--   Codec: `encode_value`, `decode_value` and their parts. Codec/Hex, Codec/RoundTrip: proofs.
--   Options: the options of src/logging.rs, `validate` and the builders. Options/Valid:
--     proofs. World: the logs.
--   Table: `Table` and its options. Table/Columns: `column`, `validate_value_with_options`.
--     Table/Keys: `index_key`. Table/Tokens: `tokenize`. Table/Distance: vector and geographic
--     distances, and the scores. Table/Rebuild: `rebuild_indexes_with_options`. Table/Query:
--     filters, `select`. Table/Write: `create_index`, `insert`, `update`, `delete`.
--     Table/Rebuild/*, Table/Distance/Workers, Table/Canonical, Table/Access, Table/Matches and
--     Table/Write/Keeps: proofs.
--   Catalog: `Catalog`, `encode`, `decode_with_options`.
--   Engine: `execute_statement_with_options`, `begin`, `commit`, `rollback`, `persist_catalog`,
--     `execute_catalog_statement`, `explain`, `execute_parsed`. Engine/Logged: `execute_inner` behind
--     the parser. Engine/Cache: `parse_with_cache` and `ParsedStatementCache`. Engine/Execute: `execute`
--     from the text of a statement on. Engine/Open: `memory_with_options`, `open_with_options`.
--     Engine/Atomic, Engine/Persist, Engine/Cache/Transparent: proofs.
--     Engine/Bounds: proofs, with Table/Rebuild/Below, Table/Query/Bounds, Table/Write/Bounds.
--   Pool: the shared part of a pool, a transaction, the permits. Pool/Keys: `row_lock_key`,
--     `insert_lock_key`, `rows_to_lock`. Pool/Locks: `lock_statement_rows`, `reserve_insert_row_id`,
--     `release_locks`. Pool/Merge: `merge_catalogs`. Pool/Run: `begin`, `commit`, `rollback`,
--     `execute_catalog_statement` and `execute_statement` of a connection. Pool/Logged: its
--     `execute_inner` behind the parser. Pool/Execute: `execute` of a connection, with its cache and
--     the lock of that. Pool/System: a pool with all its connections, where a step is one critical
--     section of one of them, in any order. Pool/*/*: proofs.
--   Platform: a parameter, a record of what is not written out (IEEE arithmetic, the reading of
--     floats, the Unicode tables, the `{:?}` print, the name of the temporary file).
--   Examples: the theorems at concrete inputs.
--
-- Words and fuel. A float is its bit pattern, an i64 is a ℤ with its range in `IsI64`; no bound on
-- the number of rows is modelled. The next row number and the counter of transactions wrap around at
-- 2^64 as the code has it in the pool, and the theorems that need them not to say so. Fuel is used to
-- print numbers (a number above it is enough), and to write the chunks of the file (the length of the
-- text: a page has at least one byte). The calls of the parser inside each other, one for each
-- `EXPLAIN`, are bounded by the length of the text, which is enough; the stack that they take is not
-- modelled, so that a text with very many of them, which may use up the program's, has an outcome
-- here. A position in a text is a number
-- of characters, where the code counts bytes: the code cuts at ASCII characters only.
--
-- The file system is `World`: the files, and for each call to come whether it fails. A write that
-- fails leaves nothing of its chunk, and the rename is one step. Files hold bytes, and a text is
-- written as its UTF-8 bytes.
--
-- An `IsBuilt` table has rows and indexes in order, and what stands under a key of an index, or of
-- the primary key, is the row numbers that a scan finds with that key. A value is canonical when
-- its floats are finite and not negative zero, which is where `==` and the keys agree. An `IsTexted`
-- table has its full-text indexes in order, and what stands under a token is the row numbers that a
-- scan finds whose text has that token, as the tokenizer cuts it.
--
-- A table is bounded when the numbers of its rows, and those in its maps, are below its next one.
--
-- A panic of the parser is an outcome of its own. It poisons the lock of the statement cache of a
-- connection, for the parser runs under that lock; the other locks are not taken to be poisoned.
--
-- Not modelled: the waiting of `get` for a permit; the clock of `execute`, whose elapsed time is an
-- argument; a failure of `exists` when a file is opened, which the code takes for a file that is not
-- there; the C interface (src/ffi.rs) and the language bindings, which are glue around the engine.
pub mod Common
pub mod Ordered
pub mod BTreeMap
pub mod Number
pub mod Utf8
pub mod Strings
pub mod Value
pub mod Codec
pub mod Exec
pub mod Sql
pub mod Options
pub mod Platform
pub mod Table
pub mod Catalog
pub mod World
pub mod Engine
pub mod Pool
pub mod Examples
