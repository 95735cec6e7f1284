-- ===== src/Lib.antt =====
-- go-zetasqlite runs ZetaSQL (BigQuery SQL) on SQLite: queries are analyzed, rewritten to SQLite's
-- dialect, and the functions of ZetaSQL are registered with SQLite as Go functions over SQL values.
-- This library models the transformation of analyzed queries to SQL statements and their text, the
-- flattening of nested queries that recursive queries need, the values, the scalar, array, aggregate
-- and window functions over them, and the name paths of tables.
--
-- Parts and files, with the Go code that each models:
--   Prelude     names of the libraries, Boolean tests, lists over native numbers, ℤ, byte strings
--   Result      `(T, error)`: a value, an error (by the format of its message), a run-time panic, or
--               fuel that has run out
--   Strconv     ParseInt, ParseBool and Sprint of Go's library, as internal/value.go uses them
--   Int64       int64 by two's complement words of 64 bits: every operation wraps around
--   Value       internal/value.go: IntValue, StringValue, BytesValue, BoolValue and ArrayValue. The
--               Go interface Value is `Option Value`, whose `none` is the nil interface and SQL's NULL
--               Value.Convert holds the conversions (ToInt64, ToString, ToBool, …), Value.IntValue and
--               its neighbours the methods of one type, Value.Arith and Value.Compare the dispatch
--   Function    internal/function.go, internal/function_array.go and the argument checks of
--               internal/function_bind.go: Operators, Logic (AND, OR, NOT, IF, COALESCE), Access
--               (OFFSET, ORDINAL and their SAFE forms), Array
--   Window      internal/function_window_option.go (Status, the values in the current frame) and
--               internal/function_window.go (Fold, Offset, Ntile)
--   Aggregate   internal/function_aggregate.go, and Aggregator.Step of internal/function_bind.go in
--               Aggregate.Options
--   NamePath    internal/name_path.go
--   Flatten     internal/sqlbuilder_flatten.go over the tree of internal/sqlbuilder_sqlbuilder.go:
--               Copy, Substitute, Join, Select, with the statements in Flatten.Statement; the
--               modules Meaning under Substitute and Select say what value an expression has in a
--               row and what rows a query gives
--   Query       the transformation of analyzed queries: Data is internal/types_data.go, Context is
--               internal/querybuilder_context.go, Coordinator and Validate are
--               internal/coordinator_coordinator.go, Function, Call, Expression, OrderItems and Scan
--               are the transformers of internal/transformer_*.go, and Build the builder functions
--               of internal/sqlbuilder_sqlbuilder.go; Change is internal/transformer_stmt_dml.go;
--               Action is a step with a context and an error,
--               Kept and the modules of that name say what every step leaves of the context
--   Writer      the WriteSql methods of internal/sqlbuilder_sqlbuilder.go: Expression, Statement
--               (SELECT) and Change (CREATE, DROP, TRUNCATE, INSERT, UPDATE, DELETE)
--   Tests       the theorems at concrete inputs
--
-- How they meet: the coordinator transforms each scan with the transformer of its type, names the
-- result, checks its columns and registers them, and the writer gives the statement's text to SQLite.
-- SQLite calls the functions of Function with decoded values; an aggregate function
-- is stepped by Aggregator.Step once for each row; a window function is told by Step and Inverse
-- which value enters and leaves the frame, and asked for its result by Done. The flattening is
-- called on the recursive part of a WITH clause, before its text is written.
--
-- State is passed explicitly: a step takes the state and returns the next one. A method of the code
-- is a function named after it, in the module of its type or file.
--
-- Loops are structural recursion on the list or tree that the code walks. GENERATE_ARRAY's loop has
-- fuel, one unit for each element and one for the end: more than the distance from start to end is
-- enough. The rewriting of expressions counts its depth up to the limit of 100 that the code has.
--
-- Assumptions: `quote` stands for strconv.Quote and is a parameter wherever a string form depends on
-- it. Trees are not shared: where the code assigns to a node, no other statement sees it. What a
-- pointer leads to from an expression's subquery, a WITH clause or a set operation is an address: the
-- context of the transformation has a heap of statements, the newest in front, and a statement's
-- address is the number of older ones. Query.Environment holds what the transformers take from other
-- parts of the program: the encoding of literals and types, the catalog's functions, the current
-- time, and the order in which Go runs through a map.
--
-- Not modelled: floating point, NUMERIC, date and time, JSON and struct values, the ZetaSQL analyzer
-- and the extraction of its tree, the statement MERGE, the catalog, SQLite
-- and the driver, the encoding of values, and the functions over strings, time, JSON, JavaScript and
-- mathematics. They stand on packages of other projects or on package time, or are left for a later
-- extension.
mod Prelude
pub mod Result
pub mod Strconv
pub mod Int64
pub mod Value
pub mod Function
pub mod Window
pub mod Aggregate
pub mod NamePath
pub mod Flatten
pub mod Query
pub mod Writer
mod Tests
