-- ===== src/Flatten/Select/Rows.antt =====
-- The rows of a lifted query, and those of the two queries it is made of.
use go_zetasqlite.Prelude.Bytes.{Bytes}
use go_zetasqlite.Flatten.Substitute.Meaning.{Meaning}
