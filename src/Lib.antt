-- ===== src/Lib.antt =====
-- A model of the C core of semindex, with the theorems that make it correct.
--
-- The program indexes C and C++ sources. A parser (C++ on Clang's AST, not modelled) leaves a
-- `semindex_t`: symbols, uses, function signatures and a fingerprint for each file. index_db_store
-- writes it into an SQLite database; semindex_db_query reads it back, page by page; the search tool
-- shows each record in a format that the user gives. The parts meet in the tables of the database
-- (Store/Rows), in the paths below a repository root (Repository) and in the enumerations of
-- include/semindex.h (Names/Kinds).
--
-- Which file models what:
--   Base, Base/*       Boolean tests, lists over the native numbers, C strings as lists of bytes;
--                      Base/Bits has the laws of the bits that an upsert joins.
--   Names              lib/semindex_names/semantic_names.c; Names/Output is semantic_output.c.
--   Repository         lib/semindex_support/repository.c: semindex_repository_root,
--                      semindex_repository_root_explicit, semindex_repository_path.
--   Store              lib/semindex_index_db/index_db_writer.c. Store/Rows: the tables that
--                      init_schema and create_staging declare. Store/Sql: inserts, upserts and
--                      deletes on tables. Store/Session: a connection, where each call of SQLite
--                      may fail and another process may commit as a transaction begins.
--                      Store/Stage, Store/Stage/Records, Store/Stage/Files: stage_records and
--                      stage_files. Store/Merge: the statements merge[0] to merge[11] and
--                      store_variant_metadata. Store/Open: init_schema, open_writer,
--                      index_db_create, create_staging. Store/Run: merge_staging and
--                      index_db_store. The files below these hold the theorems:
--                      Store/Stage/Listed and Store/Run/Staged say which staging is that of an
--                      index, Store/Merge/Properties what a merge does to symbol_properties, and
--                      Store/Merge/Sound has the interface that each merged table fills.
--   Reader             lib/semindex_database/index_db_reader.c: semindex_db_query with its cursors;
--                      Reader/Order is ORDER BY and row-value comparison, Reader/Emit the loops
--                      over sqlite3_step, Reader/Functions semindex_db_query_identity,
--                      semindex_db_query_calls, semindex_db_query_functions and
--                      semindex_db_find_at, Reader/Types the queries of types and properties,
--                      Reader/Variants the lists of variants and files.
--   Output             lib/semindex_index_db/index_db_output.c: compile_format; Output/Source is
--                      open_source and print_source_line, Output/Write index_db_output_write.
--   CompilerCommand    tools/common/compiler_command.c.
--   CommandLine        lib/semindex_cmdline/cmdline.c: the parsers of option values;
--                      CommandLine/IndexCommand lib/semindex_cmdline/index_command.c and
--                      semindex_default_database_path of lib/semindex_support/repository.c.
--   CallGraph          lib/semindex_index_db/index_db_callgraph.c: index_db_callgraph.
--   CommandDb          lib/semindex_command_db: the database of compile commands.
--                      CommandDb/Arguments: pack_arguments and unpack_arguments.
--                      CommandDb/Connection: SQLite, and the loops that wait for it.
--                      CommandDb/Store, CommandDb/Load, CommandDb/Export: command_db_store,
--                      command_db_load and command_db_export.
--   Pipeline           lib/semindex_pipeline/index_pipeline.c: index_pipeline_run, on Store and
--                      CommandDb.
--   Parser             lib/semindex_parser/semindex.cpp: semindex_index_command and
--                      semindex_index_file; Parser/CommandLines is sanitizeCommandLine.
--   Assembly           lib/semindex_parser/index_asm.cpp: the indexer of assembly sources.
--                      Assembly/Calls: observeCall; Assembly/Types: observeType and the functions
--                      that it calls; Assembly/Observe: observe; Assembly/Finish: finish.
--   Lsp/Transport      tools/lsp/lsp_transport.cpp: the framing of messages.
--   Lsp/Overlay        tools/lsp/lsp_overlay.cpp: the records of open files.
--   Tests              sample data, tests by evaluation, the theorems at concrete inputs.
--
-- How state corresponds: a `World` of Store/Session holds the main tables, the temporary tables of
-- the connection, what a ROLLBACK brings back, the counters sqlite3_changes and
-- sqlite3_total_changes, the list of faults to come, one for each call, and the commits of other
-- processes. A `Cursor` of Output/Source holds the members of struct index_db_output that
-- print_source_line uses. A table is the list of its rows in the order of insertion; the key of a
-- table is a Boolean function on two rows. A NULL pointer or a NULL column is `none`.
--
-- A `Connection` of CommandDb/Connection holds the file of the command database, what a ROLLBACK
-- brings back, and what SQLite will answer. `Databases` of Pipeline is a `World` and a `Connection`.
-- An `AsmIndexer` holds the members of SemindexAsmIndexer.
--
-- Parameters: the file system (realpath, stat, the lines of a file, the normal form of a path),
-- what Clang's tool and libgit2 answer, SQLite's GLOB, printf's %d, callbacks, whether a trace can be
-- opened, fprintf in a call graph, and what a
-- fingerprint stands for, which Documentation/index-database.md says to be the semantic records
-- that would be stored for the file.
--
-- Bounds and fuel: the search for .git of Repository runs on fuel, one more than the length of the
-- path, which each step shortens. The loop over the headers of a message runs on the length of the
-- input and one more, the export of arguments on the length of the blob, and the digits of a
-- number on its value and one more; each round takes a byte or a digit. The batches of
-- semindex_db_query_functions run on the number of functions, of which each takes one at least. All
-- other loops are structural. Where the C code moves its pointer on (compile_format,
-- compiler_command_find_source), the recursion counts the bytes or arguments that it passes over.
--
-- Not modelled: allocation failures, the trace of performance counters, a file that changes while
-- it is read, writes of search results that fail, the walk over Clang's AST, git provenance, the
-- JSON of LLVM, the rest of the LSP server, the MCP server, the searches of index_db_search.c, and
-- the tools but for the loop of cmd_index over the shared options.
pub mod Base
pub mod Names
pub mod Repository
pub mod Store
pub mod CompilerCommand
pub mod Output
pub mod Reader
pub mod CommandDb
pub mod Assembly
pub mod CommandLine
pub mod Pipeline
pub mod CallGraph
pub mod Parser
pub mod Lsp
pub mod Tests
