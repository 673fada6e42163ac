-- ===== src/Lib.antt =====
-- A verification library for the client side of the PostgreSQL protocol in crates/rlibpq: the
-- query-execution state machine of a connection, the messages it exchanges with the server, and the
-- client encodings; and what comes before them, from the
-- connection string to the choice of a server.
--
-- Prelude: names of the standard library, numbers, lists, bytes, machine integers.
-- Encoding: crates/rlibpq/src/encoding.rs. `Encoding` and `Family` are the enumerations; Names has
--   `from_name`, Length `mblen`, Verify `verify_char` and `verify_str`. A slice that is not empty is
--   its first byte and the rest.
-- ResultError, QueryResult: crates/rlibpq/src/result.rs, the data of a result and of an error.
-- Message: crates/rlibpq/src/message.rs and `AuthRequest` of auth.rs. Reader is `struct Reader`, as
--   a parser over the bytes not yet read; Frame is `next_frame`; Decode is `Backend::decode`;
--   Frontend is `Frontend::encode`, with no bytes where the source panics on a length.
-- Escape: crates/rlibpq/src/escape.rs. `escape_from` is the loop of `escape_string`; Literal is a
--   reader of literals that stands for the server's; Bytea has `escape_bytea` and `unescape_bytea`;
--   Internal is `escape_internal`, its scan and its two ways of writing.
--   A loop that moves on by several bytes goes byte by byte and counts down.
-- Pipeline: crates/rlibpq/src/pipeline.rs. `PipelineState` is the struct, with the queue as a list.
--   Queue, Send, Parse, Copy and Collect hold its methods; Session is the order in which the calls
--   of crates/rlibpq/src/connection.rs make them, one constructor of `Call` for each call and for
--   each message from the server; Runner is `QueryRunner`; Rows and Handed feed it rows in parts. A command goes from `send` through `receive` to `next_result`.
-- ConnError, ConnInfo: crates/rlibpq/src/error.rs as data, and conninfo.rs. Options is the table,
--   `ConnInfo` the working copy; KeyValue is `parse_keyword_value` over what is left of the text.
-- Uri: crates/rlibpq/src/uri.rs: `uri_decode`, `parse_uri_params` (Params) and `parse_uri` (Parse).
-- Hosts: crates/rlibpq/src/hosts.rs. Split cuts a list at its commas; `conn_hosts` puts the three
--   lists side by side; `target_from_conninfo` and `load_balance_from_conninfo` are the two
--   `from_conninfo`. The default socket directory is that of a build for other than Windows.
-- Negotiate: crates/rlibpq/src/negotiate.rs. `Negotiation` is the struct, with the two masks as a
--   flag for each method; Options is `EncryptionOptions::from_conninfo`.
-- Target: crates/rlibpq/src/target.rs. `check_target` and `CheckQuery::answer`; Version is
--   `sversion`.
-- Extended: crates/rlibpq/src/extended.rs, the plans of messages that Message.Frontend encodes.
-- Base64: crates/rlibpq/src/base64.rs.
-- Psql: crates/rpsql. Quote is `escape_literal` and `escape_identifier` of src/variables.rs. Scan is
--   src/scan.rs: Chars its character classes, Match the rules measured by what follows, Work the
--   state with the buffer on top and the statement so far, Quoted the rules in quotes and comments,
--   Track the words by which it knows a routine's body and a COPY, Colon the variables, Initial the
--   other rules, Run `step`, `scan` and the calls around them. Nesting
--   counts the parentheses of the tokens apart from the lexer. `VariableSource` is the trait: what
--   the variables of psql hold is an argument. The stack is written from its top. Variables is the
--   rest of src/variables.rs: Parse and Number read values, Space is `VariableSpace` with its hooks,
--   New its table, View the variables as the lexer sees them. The search is a walk, which finds in
--   sorted entries what a binary search finds; whether `strtod` refuses a value is an argument.
-- A connection goes from the text through ConnInfo to Hosts and Negotiate, then to Target; its
-- commands from Extended to Pipeline, over Message.
--
-- Numbers: a byte and a `u16`, `u32` or `usize` is a natural number, an `i16` or `i32` is an integer;
-- the readers and writers compute the wrap-around of the signed words.
-- The counters of `ScanState` have no upper end: each grows by one at most for a byte that is read.
-- Fuel: the loop of `scan` takes fuel (see Psql/Scan/Halts). The loops of `parse_keyword_value`,
-- `parse_netlocs` and `parse_uri_params` take a byte at least in each round and run on the length
-- of the text and one more. The loops of `QueryRunner` take two rounds at most (`collect`) and
-- three (`push`) outside pipeline mode (see Pipeline/Runner/Termination). The loops of
-- `AuthRequest::decode` and `decode_error_fields` have no bound of their own. Each of their rounds
-- takes a byte at least off the body, so they run on the length of the body and one more.
--
-- Not modelled: sockets, files, TLS and the startup exchange; the cryptography of the authentication
-- methods; display widths and the rendering of messages for people; the C interface; of psql the
-- commands, the printing, the settings and the terminal; the other programs built on the library.
pub mod Base64
pub mod ConnError
pub mod ConnInfo
pub mod Encoding
pub mod Escape
pub mod Extended
pub mod Hosts
pub mod Message
pub mod Negotiate
pub mod Pipeline
pub mod Prelude
pub mod Psql
pub mod QueryResult
pub mod ResultError
pub mod Target
pub mod Tests
pub mod Uri
