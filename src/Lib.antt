-- ===== src/Lib.antt =====
-- bas-c: a verification library for the base library of C utilities under src/bas.
--
-- The program is a library for command line tools. Text comes in through the string functions
-- (src/bas/base/str.c) and is kept in growing lists (src/bas/base/string_list.c); the command line
-- code reads options with its own re-entrant parser (src/bas/cli/opt_parser.c) and finds option
-- handlers by name and by prefix in a hash table (src/bas/util/prefix_map.c). An interactive line is
-- split into statements (src/bas/cli/cli_parser.c) whose aliases stand in such a table and whose
-- arguments are expanded (src/bas/cli/args.c) before a handler gets them. Text between encodings
-- goes through a UTF-8 codec (src/bas/locale/unicode.c); programs are found in PATH
-- (src/bas/proc/env.c). A debugging console runs a timer (src/bas/proc/dbgthread.c) that dumps the
-- stacks of the threads, as gdb lists them (src/bas/proc/format_gdb.c).
--
-- Common holds what the parts share: tests on numbers, lists, bits and a ℤ over the native ℕ.
-- Base.CString models the functions of the C library that the string code calls.
-- Base.Str models streq to chomp of str.c; Base.Tokens models readtok, strtok_eol and qstr_btok and
-- the loop of a caller; Base.Getline models str_getline.
-- Base.Slots models the array of string_list.c: ensure_capacity, create, append, insert, remove,
-- get, clear and resize. Base.StringList models find, contains, join and copy on top of it.
-- Base.Wstring models wstring.c, and Base.WstringList models wstring_list.c over the same array.
-- Base.Unique is unique of both lists, for any sort.
-- Locale.Utf8 models utf8_decode_code_point and utf8_encode_code_point.
-- Log.Logger models src/bas/log/logger.c; the texts it writes are values.
-- Util.PrefixMap models prefix_map.c. Cli.OptParser models opt_parser.c.
-- Cli.Args models src/bas/cli/args.c: Word is parse_arg, Brace is expand_brace, Wildcard is
-- expand_wildcard with its callback over the array of Base.Slots, and Parse is args_parse and
-- args_parse_to_list. Cli.Alloc is what they share: a call takes the answers of malloc and realloc
-- that are to come, true where there are none left, and ends in a value, the failure -1, or
-- memory that is freed twice.
-- Cli.CliParser models src/bas/cli/cli_parser.c: the parser with its handlers and aliases, Redirect
-- is cli_parser_parse_redirections, Statement is execute_statement and cli_parser_parse_line, and
-- Default puts args_parse in the place of the argument parser. The functions of the caller act on a
-- world that holds their data, the aliases and the lines printed to stderr; a write behind the array
-- of arguments is an outcome of its own. The caller's functions do not register handlers while a
-- line is executed.
-- Proc.Env models src/bas/proc/env.c with path_normalize of src/bas/io/path.c (Io).
-- Proc.Timer models the timer of src/bas/proc/dbgthread.c: the contexts that are allocated, what the
-- thread and the functions do to them as steps in any order, and the options of the console command
-- (Interval, Command). Proc.Gdb models the parsers of src/bas/proc/format_gdb.c and format_backtrace.c
-- and the printing of src/bas/proc/stackdump.c (Listing). Proc.Console models the console's lines.
-- Cli.Program models src/bas/cli/program.c and Io.File src/bas/io/file.c. Base.Decimal is strtoul, strtol and %d.
-- Examples holds runs of the definitions.
--
-- A string is the list of the bytes before its NUL; a pointer that may be NULL is an Option. Where a
-- function returns at once on a NULL pointer, the model starts behind that test and says so. size_t
-- and unsigned int wrap around where the source lets them: this is written out as % 2 ^ w. What
-- malloc and realloc answer is an argument. A char is signed where the source converts it to int.
--
-- Fuel: the loop over a tokenizer gets one round more than the text has bytes, and each token takes
-- a byte; the doubling loop of ensure_capacity gets 65 rounds, since a size_t doubles at most 64
-- times; the option parser calls itself at most once, so it gets two levels. The loops of args_parse
-- and expand_brace get one round more than their text has bytes, and each round takes a byte; the
-- rounds of the alias expansion are the ten of the source. The capacity of load_file doubles at most
-- 64 times for a block, and each block but the last takes 64 bytes, so one round more than the file
-- has bytes is enough; the rounds of process_files are any number.
--
-- Not modelled: qsort in the lists' sort, the file entry lists,
-- log.c, and the signal handlers, forks and readings of /proc of stackdump.c
-- and dbgthread.c; ICU conversions, gettext, syslog and process control are calls of other libraries.
pub mod Common
pub mod Base
pub mod Locale
pub mod Util
pub mod Log
pub mod Io
pub mod Cli
pub mod Proc
pub mod Examples
