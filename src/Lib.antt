-- ===== src/Lib.antt =====
-- Rumor is an interactive shell for the networking stack of Eth2. This library models the parts of it
-- that keep and compute: the chain that a session follows, its request/response protocol, the sessions
-- with their calls, the databases of blocks and states, and the
-- serving of blocks to peers.
--
-- Base holds the shared helpers: comparable types as an interface (Base/Compare), lists over the native
-- numbers (Base/Lists), a Go map as an association list with its laws (Base/Map), Go's results and
-- uint64 arithmetic (Base/Go), and a monad of state and error with rules for its programs (Base/Exec).
-- An outcome is `ok`, `err` with the error value, or `panic`: an index out of range, a nil dereference.
-- A method that changes its receiver in place returns the changed state also beside an error.
--
-- Chain models package chain.
--   - Chain/Zrnt: what the package uses of zrnt (states, blocks, committees, the proto-array fork
--     choice), as a record of parameters. No law is asked of them but where a theorem names it.
--   - Chain/Key, Chain/Entry: BlockSlotKey (chain/chain.go) as its 40 bytes, and HotEntry
--     (chain/hot.go), whose epochs context may be nil.
--   - Chain/Cold: FinalizedChain of chain/cold.go. Three slices of roots, the index of state roots, and
--     the operations on them. Cold/Invariant, Cold/Lookup and Cold/Replay hold the proofs.
--   - Chain/Hot: UnfinalizedChain of chain/hot.go and its lookups; Hot/Advance, Hot/Process: AddBlock and
--     AddAttestation; Hot/Prune: the fork choice's callback OnPrunedBlock with the block sink as a
--     function on a state of its own; Hot/Iter: HotChainIter.
--   - Chain/HotCold: HotColdChain, FullChainIter and ChainsMap of chain/chain.go. The finalized chain is the
--     sink of the hot one, as ChainsMap.Create sets it up, and a relation has a step for each
--     thing that changes the pair.
--   - Chain/Tests and Chain/Toy run the definitions on a small concrete instance of the parameters.
--
-- Rpc models package reqresp (p2p/rpc/reqresp): requests and chunked responses on a stream.
--   - Rpc/Stream: Go's io.Reader as a parameter, with its documented bound on the count; `Ordered` and
--     `Steady` name what some theorems ask of a reader beyond that.
--   - Rpc/BufLimit: BufLimitReader of buf_limit_read.go; Rpc/Varint: the uvarints of encoding/binary that
--     are read through it.
--   - Rpc/Request: the stream handler of handle_request.go, with the size limit that its calls share as a
--     state; Rpc/Response: the loop over the chunks of handle_response.go, with the chunk handler as a
--     parameter; Rpc/Wire: the bytes of a response.
--   - Rpc/Encode: the chunk encoding of encode.go and the chunk writers of rpc_method.go, over a sink that
--     is a parameter, in the monad of Base/Exec; Rpc/RoundTrip joins the two ends of a stream.
--   - Rpc/Method: SSZCodec and what uses it in rpc_method.go.
--   - Rpc/Compression: the interface of compression.go, as a parameter. Its one implementation calls snappy.
--   - Rpc/Tests and Rpc/Toy run the definitions over a closed stream of bytes.
--
-- Control models package control (control/*.go): what an interactive session does with a command line.
--   - Control/Text: Go strings as bytes, with the functions of package strings that are used. Control/Lines:
--     LinesReader of control/util.go, over a parameter for the source of its lines.
--   - Control/Types: the objects. Calls and sessions are shared by pointer, so they lie in stores of the
--     session processor and are referred to by their place; actors are numbered, since a killed actor's
--     name is given to a new one. `Env` is what the package uses from outside: the commands that the ask
--     library loads and runs, the tasks that they register, the clock, and the libraries for levels,
--     durations and other programs.
--   - Control/Call: RegisterStop, RequestStep and RequestStop of control/call.go.
--   - Control/Processor, Control/Overview: SessionProcessor of control/session_processor.go. The goroutine
--     that a call leaves behind is the operation `free_call`.
--   - Control/Prefixes, Control/Session, Control/Run: the words before a command, the session's names and
--     variables, and runCmd of control/session.go with its include, next, cancel, kill, grab, me and actor
--     commands (control/actor/actor.go says which commands are an actor's). Control/Script:
--     runInclude, which runs a script by the commands of a sub-session. The interpreter is a parameter
--     (`Shell`): it says which command comes next.
--   - Control/Shape, Control/Invariant, Control/Reach: what the operations leave as it is, and the invariant.
--     Control/Steps: a step for each thing that changes the processor, as a relation.
--   - Control/Tests and Control/Toy run the definitions in a small world of commands.
--
-- Db models the databases under chain/db.
--   - Db/Table: the sync.Map with the statistics beside it, which MemDB of blocks and MemDB of states share.
--   - Db/Blocks: MemDB of chain/db/blocks/mem.go, with the pool of buffers of db.go. What the map and the pool
--     hold has a dynamic type there, and a type assertion can fail. sync.Pool is a parameter. Blocks/Valid and
--     Blocks/Reach are about series of operations, Blocks/Facts about single ones.
--   - Db/States: MemDB of chain/db/states/mem.go. Db/Registry: DBMap of both packages (global.go).
--   - Db/Tests runs them on numbers with one byte each.
--
-- Serve models the commands of control/actor/chain/chcmd that serve blocks to peers and fetch them.
--   - Serve/Types: the chain, the database and the stream to the peer as these commands see them. Serve/Range
--     and Serve/Root: the handlers of serve/range.go and serve/root.go; Serve/Sync: the filter of sync/range.go
--     on the blocks of a response, and the loop of sync/handle_sync.go over them, as if it took the blocks
--     when the response has ended. Serve/Tests runs them on a chain of four slots.
-- Rpc/Responder models the open requests of control/actor/rpc/state.go.
--
-- Slots and epochs are uint64, written out where they wrap around. The walks over the hot chain that the
-- source bounds by nothing but the data have as many rounds as there are entries, and one more;
-- Chain/Hot/Prune/Walk and Chain/Hot/Iter/Facts are about these. Loops over a range of slots recurse on
-- the number of slots, the loop over chunks on the number of chunks allowed, a uvarint has ten bytes at most,
-- the loop over the slots of a range has a round for each block asked for and one more, a Read of LinesReader
-- writes a byte in each round, and a decimal uint64 has twenty digits. A script may run for ever, so that for
-- scripts no bound is enough: the theorem about them holds for every fuel.
--
-- Left out: locks and contexts (each operation runs as one step), the pubkey cache and the spec (handles
-- that are only passed on), log output that belongs to no call, timeouts, the environment and the context
-- of a parent session, the interpreter of mvdan.cc/sh, and FileDB, and every part of the program that is libp2p,
-- discovery, shell or server.
pub mod Base
pub mod Chain
pub mod Rpc
pub mod Control
pub mod Db
pub mod Serve
