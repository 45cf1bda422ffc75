-- ===== src/Lib.antt =====
-- The in-memory core of the SSH honeypot: the connection limiter, the virtual filesystem, the line
-- editor, lexer and arithmetic of the emulated shell, and the scp and sftp servers.
--
-- Parts, and where each is modelled.
--   Limiter      src/network/limiter.rs   the caps on concurrent connections
--   Vfs          src/vfs/mod.rs, src/vfs/nodes.rs   the arena filesystem that commands read and change
--   Line         src/shell/line.rs   the readline-like editor that turns input bytes into lines
--   Scp          src/network/scp.rs   the scp sink that captures uploads
--   Sftp         src/network/sftp.rs   the packet codec, open handles, and the normalisation of paths
--   Parser       src/shell/parser.rs   the lexer that splits a line before it runs
--   Arith        src/shell/arith.rs   the evaluator of arithmetic expansions
--   Env          src/shell/env.rs   the shell's variables
--   Prelude      lists over native numbers, text, maps, outcomes, and what the code takes of Rust's
--                str: from_utf8_lossy, trim and the decimal form of a number; laws of & and |
-- The server asks the limiter before it starts a session, feeds what a client types to the editor,
-- cuts submitted lines by the lexer, and runs them by commands that read and change the filesystem;
-- the server, the interpreter and the commands are not modelled, nor are sockets, the SSH library,
-- logging and configuration.
--
-- Limiter. Registry is ConnectionRegistry, with the map behind its mutex as an association list and
-- the atomic counter as a number that fetch_sub wraps at 2^64. try_acquire and release have two
-- atomic parts each, between which other tasks run: reserve and enter, release_entry and free_slot.
-- Limiter/Interleaving steps any number of connections through these parts in any order, and
-- Limiter/Invariant holds in every state that it reaches.
--
-- Vfs. The arena is a list of nodes and a node id an index, a read out of range is a panic. The
-- children of a directory are an association list with distinct keys in key order. Each operation
-- is the function of the same name (insert_node is insert); the clock is an argument. Vfs/Tree says
-- that an arena is a tree: each chain of parents ends at the root, and each entry names a node whose
-- parent is that directory. Vfs/Valid adds the caps on nodes and on bytes and the byte count; the cap on
-- depth is in the operations alone.
-- Loops run on fuel. path_of, depth_of and is_ancestor_of have the bounds of the source. height_of
-- has none: a pop for each node is enough on a tree, which Vfs/Tree/Height shows. Symbolic links
-- are followed 40 deep and copies go 64 deep, as in the source.
--
-- Line. LineEditor is the struct, input the method, with one function for each key. input calls
-- itself once where a key ends a search; two calls of fuel are enough. A line is the list of its
-- bytes.
--
-- Scp. ScpSink is the struct, feed and handle_control the methods, parse_cd the function. The hash of
-- the sha2 crate is a parameter: a state, its start, one byte's update and the result in hexadecimal.
-- Scp/Lines says which of the bytes fed are a file's control line, and Scp/Capture which are its body.
-- Scp/Command is parse_scp on the tokens of the command line.
--
-- Sftp. put_* append to a packet and get_* read from a cursor, by the names of the source. Transfer, Handles
-- and Requests are the arms of handle_packet on open handles, from the cursor after the request id on; opening
-- takes the path and the file that were looked up, or the lines of the directory's listing, which
-- format_dir_entry makes and which are not modelled. Reach is any sequence of these requests. The arms that
-- only name a path, and the framing of packets, are not modelled.
--
-- Parser. Scan is the loop over a line that six functions of the lexer repeat, and Handlers what each
-- does of its own in it; the functions have the names of the source. Bounds/Rule is how to reason about
-- the loop: it ends, and what holds of the state before each step gives what holds of the result. A
-- line is its bytes, for tokenize its characters. Each cut stands beside an ASCII byte. Segments/Pieces
-- are lines made of quoted, escaped and plain pieces, with which comments are described.
--
-- Arith. Int64 is what the evaluator takes of i64, on bit patterns below 2^64; Tokens is tokenize, and
-- Evaluate the methods of Parser and eval. The tokens are those from pos on, and the depth is what is
-- left of MAX_DEPTH, on which the methods recur. The tokenizer has a step of fuel for each character and
-- a chain of operators one more than its tokens. Expression is trees, their values and how they are written.
-- The tables of Unicode are a parameter.
--
-- A panic is a value of Prelude/Outcome; a release build wraps where a checked one panics on an
-- arithmetic overflow. Numbers of Rust are natural numbers where the caps keep them small.
pub mod Prelude
pub mod Limiter
pub mod Vfs
pub mod Line
pub mod Scp
pub mod Sftp
pub mod Env
pub mod Parser
pub mod Arith
