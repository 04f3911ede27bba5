-- ===== src/Lib.antt =====
-- A verification library for foundationdb-effect, FoundationDB for the Effect library.
--
-- The program stores everything under keys that its tuple layer packs. A subspace is a prefix of such
-- keys, the directory layer hands out such prefixes by paths, and every store above them (the
-- persisted queue, the key-value store, the rate limiter, the runner storage) keeps its state in rows
-- of a few subspaces and changes them in transactions, which are tried again until they commit.
--
-- The parts, and the files that model them:
--   Prelude      shared names and lemmas: numbers, lists, results, integers.
--   Bytes        src/tuple/bytes.ts, and `equalBytes`, `startsWith`, `strinc` and `incrementPrefix` of
--                src/directory/internal.ts. A byte is a number below 256.
--   Tuple        src/tuple/values.ts and src/tuple/codec.ts. Tuple/Encode is `pack` with the pushes on
--                its output, Tuple/Decode the `Parser` of `unpack`, as a state passed through its
--                reads.
--   Subspace     src/tuple/Subspace.ts: keys under a prefix, on top of Tuple.
--   Transaction  src/FoundationDb.ts: the attempts of `withTransactionResult`, one `step` each. The
--                program of a transaction is a function on the world, and the contexts of its runs are
--                kept as a list. Transaction/History lists the errors with which the program and the
--                commit fail the attempts, whatever is made of them.
--   Directory    src/directory/engine.ts, internal.ts and model.ts: layers of nodes by their prefixes
--                (Directory/State), versions, `findNode`, `nodeContainingKey` and `isPrefixFree`
--                (Directory), `createOrOpenInternal`, `existsInternal` and `moveInternal` through
--                partitions (Directory/Create, Directory/Exists, Directory/Move).
--   Chunks       src/internal/chunked-value.ts: a value over the rows of one path.
--   KeyValue     src/persistence/key-value-store.ts on top of Chunks; KeyValue/Size is its counter,
--                KeyValue/Entries the list of entries that it stands for.
--   Queue        src/persisted-queue/repository.ts: `offer`, `claim`, `refreshClaim`, `finalizeClaim`
--                and a batch of `cleanupState`, each as a function on what its transaction sees.
--   Limiter      src/persistence/rate-limiter.ts: the operations on the decoded state of one key.
--   Runner       src/cluster/runner-storage.ts: registrations with machine ids, and shard leases.
--
-- A transaction is serializable, so each operation is one function from the state that it reads to
-- the state that it leaves; the time that it reads is an argument. An effect that fails is a value of
-- `Result`, a loop is a recursion on its list.
--
-- Fuel: `magnitudeBytes` has the value itself, of which each round takes a byte, and the parser's loop
-- has one more than the bytes that are left, of which each round takes one or ends, so neither runs
-- out. `register` counts its 1024 candidates down. `createOrOpenInternal` calls itself on the
-- parent's path and, as the other operations on directories do, on the rest of a path inside of a
-- partition; both are shorter, so these operations have more fuel than the path has components. The
-- attempts of a transaction have no bound of their own: their fuel stands for what the client allows.
--
-- Parameters: the platform's TextEncoder and TextDecoder are the record `Utf8`, with the hypothesis
-- `IsUtf8` that decoding reads back what was encoded of a well-formed string. A string is its list of
-- UTF-16 units there. A number of a tuple is given by its binary64 pattern. The rows of a queue's
-- index are the record `Index`, with the laws that FoundationDB documents for get, set, clear and
-- range reads; its order and its limit on rows are left to the implementation of `scan`.
-- The text encodings of the key-value store are the record `Platform`, and the database's addition of
-- two numbers of eight bytes the record `AtomicAdd`, with its law. The native client of a transaction
-- is the record `Driver` on an arbitrary world; `Limited` is the hypothesis on it that each retry
-- spends some budget, as `retryLimit` has it. The number that the prefix allocator returns and
-- whether other rows lie under a prefix are the record `Surroundings`.
--
-- Bounds: times are whole milliseconds. Claims are studied at times before
-- `Number.MAX_SAFE_INTEGER`, from where the program's timestamps no longer tell times apart. Machine
-- ids are below 1024. The refill rate of a token bucket is positive.
--
-- Not modelled: `removeInternal`, `listInternal` and the prefix allocator of the directory layer, the
-- order of its children, the telemetry, range reads and watches of transactions, the message storage,
-- the event log, the backing persistence, the workers of the persisted queue, the JSON of stored
-- records, and the learned branch of `adaptiveConsume`, whose arithmetic is on fractions.
pub mod Prelude
pub mod Bytes
pub mod Tuple
pub mod Subspace
pub mod Chunks
pub mod KeyValue
pub mod Limiter
pub mod Queue
pub mod Runner
pub mod Transaction
pub mod Directory
