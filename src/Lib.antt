-- ===== src/Lib.antt =====
-- The TypeScript SDK of ZyncBase, sdk/typescript/src: the client side of a realtime store. Store
-- calls, presence and actions of an application become requests of a connection; errors of the
-- server come back as `ZyncBaseError`s, which the retry policy reads; values are addressed by field
-- paths, and documents by ids that travel packed in 16 bytes.
--
-- - Prelude: lists, tests, integers, texts (lists of UTF-16 code units), dictionaries, results.
-- - Json: `JsonValue` of types.ts, with the reads and writes of properties that the code uses.
-- - Errors: errors.ts, the codes and categories, and the conversions to `ZyncBaseError`.
-- - Actions: the error classes of actions.ts (`mapActionError`).
-- - Retry: retry_policy.ts, and in Retry/Loop the loop `dispatchWithRetry` of connection.ts, which
--   asks the policy after each failed send.
-- - Pending: pending_requests.ts. The promises of the requests are a log of what settled, in order.
-- - Path: path.ts. A `Path` is a dotted text or a list of segments.
-- - Radix: numbers in a base, for DocId's shifts and digits.
-- - DocId: doc_id.ts. DocId/Short and DocId/Uuid hold the two families of ids; the bytes are lists
--   of numbers, an "or" of disjoint bits is a sum, and the two caches are explicit state.
-- - Schema: schema_dictionary.ts, which turns names into the integers of the wire. Build fills the
--   maps from a SchemaSync, Paths and Records translate addresses and stored values, and Sparse the
--   data of presence and actions. The hash function is a parameter.
-- - Presence: presence.ts. Users is the cache of the users, an array of entries with a map of
--   indexes, and Broadcast what the messages of the server do to it and to the shared state;
--   BroadcastViews says it for each field of a user.
-- - Subscriptions: `SubscriptionTracker` of subscriptions.ts. Views holds the records of a query,
--   Projection the values of `store.listen`, Tracker the dispatch of deltas with its batches, and
--   Reconnect what happens when the connection is back. Initial turns a first result into a delta.
-- - Compare: the comparators of store.ts, `compareDocIds` of doc_id.ts and the default order of
--   subscriptions.ts; `Array.prototype.sort` is a stable insertion sort.
--   Packed, PackedUuid and PackedOrder relate `compareDocIds` to the packed bytes.
-- - StoreWire: store_wire.ts. Writes and Queries build the requests, Where and Sort encode filters and
--   orders, Asked says what a filter asks for by the names of the operators; the UUID behind a write
--   id is an argument. Nesting compares writes below a document with nested ones, SortViews the order
--   that is sent with the client's own.
-- - Registry: the shared subscriptions of store.ts. The model is one registration with its consumers,
--   as registrations do not touch each other: consumers are numbered, a promise and its handle are a
--   phase, and what the code awaits is an input of Steps. Invariant and the modules from Establishing
--   to Histories are about its state, Changes to Answers about its consumers.
-- - InFlight: the writes of store.ts after their message is built. A write is a number, its two awaits
--   are states, and what settles them is an event; a reply to a message comes only while the write
--   waits for it. Commits, Lost and Confirmed are about the map of the commit promises.
-- - Connection: `ConnectionManager` of connection.ts. Its fields are a record, each handler a function
--   on it: Reconnecting has connect, disconnect and what the end of a socket leads to, Liveness the
--   probes and pings, Requests what is sent and received, Closing the errors of a close. Steps puts
--   them together: a run is any sequence of inputs. Timers fire only while they are set.
-- - Wire: `ConnectionWireCodec` of connection_wire.ts. Encode has the requests, Decode the pushes and
--   Responses the answers, all as values of Json: what MessagePack makes of them is left out. Types of
--   messages are an enumeration, and the type of an encoded request stands behind its properties.
-- - UuidV7: uuid.ts, whose random bytes and clock are inputs.
-- - Tests: runs at concrete inputs.
--
-- Numbers are left out of the error messages of Schema. In a wire path, what stands behind the
-- field index is ignored, by the code too. Numbers are integers, so NaN, infinities and fractions
-- of JavaScript are not modelled. Objects are lists of properties in the order of insertion;
-- JavaScript puts keys that are array indices first, which is not modelled, nor are prototypes.
-- `setDeepProperty` below a byte array leaves the object as it is in the model. The random number
-- of the jitter is r / scale for any r below scale, and the delay is an exact multiple of 1 / (10 *
-- scale). Delays of the liveness checks are multiples of 1 / scale. The only loop without a bound
-- of its own is `dispatchWithRetry`, which runs on fuel; one more than `maxServerRetries` is enough
-- when rate limits are not retried. Not modelled: the transport, timers and promises, the server
-- (in Zig), and code that forwards calls. A listener of a connection does not call back into it.
pub mod Prelude
pub mod Json
pub mod Errors
pub mod Actions
pub mod Retry
pub mod Pending
pub mod Path
pub mod Radix
pub mod DocId
pub mod Presence
pub mod Subscriptions
pub mod Compare
pub mod Schema
pub mod Connection
pub mod Wire
pub mod UuidV7
pub mod StoreWire
pub mod Registry
pub mod InFlight
mod Tests
