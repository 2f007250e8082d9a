-- ===== src/Lib.antt =====
-- libpgf reads grammars in the Portable Grammar Format, parses and linearizes with them; libgu is
-- its library of containers, text, streams and memory. This development models the parts of both
-- that decide the trees of a parse, and the text that goes in and out.
--
-- How the parts interact. A `PgfParser` (pgf/parser.c) starts a parse with pgf_parser_parse, which
-- predicts the items of the start category, and each pgf_parse_token scans the items that wait for
-- a token and works on what comes of them: an item whose dot is at the end completes a category,
-- which is combined with the items that wait for it; the categories made so form a forest of trees.
-- Then pgf_parse_result enumerates the trees of the completed categories: pgf_cat_to_expr builds
-- one, gu_choice_next (gu/choice.c) decides between the productions of a category, and
-- pgf_parse_result_next marks, resets and advances the choice to go from one tree to the next. The
-- other way, pgf_new_lzr (pgf/linearize.c) indexes the productions of a grammar, pgf_lzn_next
-- finds, by the same choices, the concrete trees of an expression, and pgf_lzr_linearize tells a
-- presenter their tokens. The tables behind sets and maps (gu/map.c) ask gu/prime.c for twin primes
-- as their sizes, and gu/mem.c for buffers. Expressions are printed and read by pgf/expr.c, and
-- text is coded by gu/utf8.c.
--
--   Prelude      shared names, lists, Boolean tests, tables, and `Run`, the outcomes of a C function:
--                a result, an exception, a failed assertion, a read through a bad pointer, and `stuck`
--                for a loop of the model out of fuel
--   Prime        gu/prime.c, on numbers that stand for an int from 0 to
--                below 2^31; Prime/Wheel and Trial are the tests, Primality, Search, Ascent and Twins
--                the searches
--   Memory       the sizes of buffers in gu/mem.c; Memory/Pool is its pools, with the alignment of
--                gu/bits.c and gu/bits.h, Align, Region and Separate what they hand out. A pointer has
--                8 bytes, and the greatest alignment is 16
--   Map          gu/map.c and gu/map.h: a buffer is a function of the number of an entry, and the kinds
--                of key are the record `Hasher`, with its laws, in Map/Kinds. Map/Lookup and Located
--                are gu_map_lookup, Occupy and Written the writing of an entry, Rebuild and Resize
--                gu_map_resize, Insert gu_map_insert, Sequence the making and filling of a table,
--                Enumerate the iteration
--   Input        the integers of gu/in.c, on a list of the bytes to come; Input/Signed is two's complement,
--                from gu/bits.h, and Input/Endian the order of bytes. Input/Buffered is the buffers of a
--                GuIn, Refine and Enough how they stand for such a list
--   Reader       the integers of pgf/reader.c
--   Strings      the forms of a GuString in gu/string.c
--   Utf8         gu/utf8.c and gu_ucs_valid of gu/ucs.h: a buffer is a list of bytes with the room left
--   Choice       gu/choice.c; Choice/Tree, Runs and Monad are the computations that choose
--   Expr         pgf/expr.h; Expr/Unapply, Reader and Printer are pgf/expr.c, and Expr/RoundTrip joins
--                the last two. The tests of <ctype.h>, and the digits that gu_printf writes, are
--                parameters
--   Grammar      the structures of pgf/data.h that parsing reads; a pointer to a PgfCCat is an index in
--                a store
--   Linearizer   pgf/linearize.c: Linearizer/Index for the indices of a PgfLzr, with Rules and Indexed for
--                what they hold, Infer and Enumerate for the trees of a PgfLzn, Presenter for
--                pgf_lzr_linearize; Derivation, Values and Typed say what a tree, its
--                constituents and a grammar are, Outcomes which choices there are, and Climb, Entries,
--                Levels, Forward, Tries, Loop and Found follow the search for the next of them.
--                Fills and Sound, Ends, Every and Exactly compare them with the trees of the grammar.
--                A map is the list of its entries, gu_map_iter goes over the categories
--                in the order of a list, and a GuWriter is what it does to a state
--   Parser       pgf/parser.c: Parser/Trees for pgf_cat_to_expr and pgf_production_to_expr,
--                Parser/Results for PgfParseResult, Parser/Chart for items and their sets. Sets are
--                lists of keys in the order of insertion; the order in which gu_map_enum_next gives
--                them, which is that of the hash table, is a parameter
--
-- Fuel. Loops over bytes, paths and characters have fuel from the length of what they consume, in
-- the definition itself; pgf_cat_to_expr has the number of categories not yet seen, and
-- pgf_parse_result_next the number of trees that are null before the next. pgf_read_expr takes a
-- bound from the size of the tree. pgf_lzn_infer has the height of the expression, a round for each
-- outcome of an application, and for a climb the rank of a category, which coercions lower. The
-- work on items of the chart, and the searches of gu/prime.c, are on fuel that bounds the depth of
-- the calls or the rounds. gu_map_lookup has as many rounds as the table has entries, and
-- gu_map_insert nests at most twice.
--
-- Not modelled: hash values, and the order they give to an enumeration in the chart, the contents
-- of pools (an allocation is a fresh value), the functions of streams and files, floating-point
-- numbers, descriptors of types, the tables of the binary format, logging, dumping and the printing
-- of items, and the tools and bindings. A `char` is a number from 0, and an error of a reader other
-- than its end does not occur.
pub mod Prelude
pub mod Prime
pub mod Memory
pub mod Map
pub mod Input
pub mod Reader
pub mod Strings
pub mod Utf8
pub mod Choice
pub mod Linearizer
pub mod Expr
pub mod Grammar
pub mod Parser
