-- ===== src/Lib.antt =====
-- Pigeonhole is the Sieve language for mail filtering: a script is scanned, parsed, validated and
-- compiled to byte code, which an interpreter runs over a message; tests in the script compare
-- strings of the message with keys. This library models the core of that chain.
--
-- Parts and files (paths are from the root of the repository):
--   * Lexer: the lexical scanner, src/lib-sieve/sieve-lexer.c. Lexer itself holds the scanner's
--     state and the scanning of comments, whitespace, quoted and multi-line strings (struct
--     sieve_lexical_scanner, sieve_lexer_shift, sieve_lexer_scan_hash_comment, parts of
--     sieve_lexer_scan_raw_token); Lexer/Tokens the numbers, identifiers, tags, the switch on the
--     first character (scan_first, scan_raw_token) and sieve_lexer_skip_token (skip_token).
--   * Binary: what the generator emits and the interpreter reads,
--     src/lib-sieve/sieve-binary-code.c: emit_* are sieve_binary_emit_*, read_* are
--     sieve_binary_read_*. Lengths, jumps and numbers of the byte code pass through these.
--   * Interpreter: src/lib-sieve/sieve-interpreter.c. A state is the block's code, the program
--     counter, the stack of loops with its limit and the result of the last test; loop_start,
--     loop_next, loop_break, program_jump and the others are sieve_interpreter_*, and
--     interp_continue is the main loop, which runs one operation per round. Its jumps read their
--     offset with Binary.read_offset. The jump operations are those of src/lib-sieve/sieve-code.c.
--     Interpreter/Operation reads and executes one operation (sieve_interpreter_operation_execute).
--   * Operands: src/lib-sieve/sieve-code.c, the operands of the byte code: operand_read is
--     sieve_operand_read, with the extensions of the binary (sieve_binary_read_extension), *_read
--     are sieve_opr_*_read, and the string list in the code delivers its items by
--     stringlist_next_item. Operands/Emit has their emission (sieve_opr_*_emit) and that of the
--     arguments of commands (src/lib-sieve/sieve-commands.c). Both work on the blocks of Binary.
--   * Generator: src/lib-sieve/sieve-generator.c and tst-allof.c, tst-anyof.c, tst-not.c,
--     tst-truefalse.c. generate_test is sieve_generate_test, whose code the operations of
--     Interpreter run; a jump list is a list of addresses of offsets that Binary resolves.
--     Generator/If has the if structures of src/lib-sieve/cmd-if.c: cmd_if_generate and
--     cmd_else_generate, and generate_chain, which generates the commands of one structure in turn.
--     Generator/Correct and Generator/If/Correct join the generator with the interpreter.
--   * Comparator: i;octet, i;ascii-casemap (src/lib-sieve/cmp-i-*.c) and i;ascii-numeric
--     (src/lib-sieve/plugins/comparator-i-ascii-numeric).
--   * Match: :is, :contains (src/lib-sieve/mcht-*.c), :value (src/lib-sieve/plugins/relational) and
--     the loops over values and keys (src/lib-sieve/sieve-match.c). A match type calls a comparator,
--     given to it as a parameter: `compare`, or the interface CharMatch, which both substring
--     comparators implement. Match/Wildcards has :matches (src/lib-sieve/mcht-matches.c) with the
--     match values it collects (src/lib-sieve/sieve-match-types.c): matches_loop is the loop of
--     mcht_matches_match_key, match_round one round of it; Match/Wildcards/Glob says what a key
--     means.
--   * StringLists: src/lib-sieve/sieve-stringlist.c, the default operations and the indexed list over a
--     source that holds its items; Match reads its lists of values and keys as such items.
--   * Results: the actions that a script leads to, src/lib-sieve/sieve-result.c. Results has side
--     effects and their merging (sieve_result_side_effects_merge, sieve_side_effects_list_add),
--     Results/Adding the adding of an action or a keep: add_action is _sieve_result_add_action,
--     check_actions its loop over the actions that are there.
--   * Flags: lists of flags of the extension imap4flags,
--     src/lib-sieve/plugins/imap4flags/ext-imap4flags-common.c. iter_get_flag and iter_delete_last are
--     the iterator, add_items, set_items and remove_items the loops of
--     sieve_ext_imap4flags_add_flags, ..._set_flags and ..._remove_flags over the items of a string
--     list. Flags/Words says what the flags of a list are,
--     Flags/Places where they begin and end.
--     Flags/Items has the list of the flags in such items (ext_imap4flags_stringlist_next_item).
--   * Prelude: numbers, lists, bits. Ctype: the character and number functions of the core library.
--   * Tests: the theorems at concrete inputs.
--
-- Bytes are numbers below 256 and strings are lists of bytes. Machine arithmetic is written out
-- with its width where the source can exceed it. The core library of Dovecot is not part of the
-- repository: its buffer, character and number functions, and whether a stream has its eof set,
-- are parameters (Buffer, Ctype, StringLib) with their documented behaviour. The operation that
-- the main loop executes, the answers of the CPU limit, and the checks and merges of single
-- actions and side effects are parameters too, and so are the tests and commands that are not
-- named above.
--
-- Loops are structural, but some run on fuel: the searches of :contains and :matches, which are
-- given two rounds more than the value has bytes, the loop of :matches, which is given one round
-- more than the key and the value have bytes, and its loop over question marks, which is given
-- one more than the rest of the key; the loops over the flags of a list, which are given one
-- round more than it has bytes; the skipping of whitespace tokens, which is given one round more
-- than there are characters, the reading of catenated strings, which may nest as deep as a block
-- has bytes, and the main loop, whose rounds are an argument. Their theorems show that this is
-- enough: for any string operand of a block whose extensions settle, and for the main loop where
-- each operation moves on.
--
-- Not modelled: tracing, error texts, memory pools and the cutting of streams into buffers, since
-- no result depends on them; the parser, the validator, commands but for if and stop, the execution
-- of results, the other extensions, storage and the ManageSieve services.
pub mod Prelude
pub mod Binary
pub mod Interpreter
pub mod Operands
pub mod Generator
pub mod Ctype
pub mod Comparator
pub mod Match
pub mod Lexer
pub mod StringLists
pub mod Results
pub mod Flags
pub mod Tests
