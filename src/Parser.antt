-- ===== src/Parser.antt =====
-- The parser: pgf/parser.c.
pub mod Trees
pub mod Results
pub mod Chart
mod Tests
