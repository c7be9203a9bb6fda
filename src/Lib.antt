-- ===== src/Lib.antt =====
-- Verification of the compute contract reference implementation (TypeScript, src/typescript/lib).
--
-- The program is a set of services around AT Protocol repositories. Those that are modelled:
--
-- * Authorization of requests. src/typescript/lib/rbac-helper/mod.ts decides whether a token may call a
--   route, with the tokens that src/typescript/lib/oidc-helper/mod.ts validates. Rbac.antt has the records;
--   Rbac/Glob is globMatch, Rbac/Policy findMatchingSchema and checkRBACPolicy, Rbac/Records
--   getRBACRecord, getServiceAllowlist, checkAllowedToUseService and collectIssuers, Rbac/Authorize
--   resolvePDS, validateATProtoServiceAuth, raiseIfUnauthorized and raiseIfUnauthorizedServiceAuth, and
--   Oidc subMatchesActx, parseAudience and OIDCToken.validate. A function that makes requests gives its
--   result and the list of the requests in order (Base/Tracing).
--   The JOSE library, verifyJwt, DID documents, handles and the answers of
--   listRecords are fields of the records Jose and Net. The loop over the pages of listRecords takes
--   fuel, a unit for each page.
-- * The relay. Relay.antt is the class RelayState of src/typescript/lib/xrpc-relay/relay.ts: its maps
--   are dictionaries, its promises, timers and sockets numbers, and what is sent, closed and settled is
--   recorded. Relay/Server has the socket handlers of src/typescript/lib/hono-factory-xrpc-relay/mod.ts,
--   Relay/Nonces the nonce store of src/typescript/lib/xrpc-relay/auth.ts, Relay/Registration the checks
--   of a subscriber's onOpen, and Relay/Steps the step relation of all these events in any order, and
--   its invariant in Relay/Consistent.
-- * The repository's tree. Mst.antt and Mst/Removal are the node operations of
--   src/typescript/lib/hono-factory-atproto-repo/mst/mst.ts (get, add, update, delete, splitAround,
--   appendMerge, trimTop), where the index that the source computes is a scan that stops at the same
--   entry; Mst/Cached is the class Mst with its flat cache, Mst/Serialized the prefix compression of keys.
--   The leaves in order are what a tree stands for; Mst/Inserting says how one list of leaves comes from
--   another, and Mst/Histories compares any history with a finite map.
-- * Commits. Commits.antt is the loop of applyWrites in
--   src/typescript/lib/hono-factory-atproto-repo/repo/repo.ts over the tree of Mst/Cached, which is
--   given in memory and layered (one that mst.init loads need not be), and Commits/Slices its
--   buildCarSlice, which importCar of Car.antt reads.
-- * The firehose. Firehose.antt is the sequencer of
--   src/typescript/lib/hono-factory-atproto-repo/firehose/sequencer.ts, and Firehose/Emitted its state after
--   any events.
-- * The market's receivers. Market.antt is the service-auth check of src/typescript/lib/market/auth.ts,
--   Market/Handlers are submitRfp and submitBid, and Market/Contracts submitAccept and submitEvent, of
--   src/typescript/lib/market/server.ts, Market/Registry the handlers of registry.ts.
-- * DAG-CBOR. Cbor.antt has the headers of src/typescript/lib/hono-factory-atproto-repo/cbor/dag-cbor.ts,
--   with the signed 32-bit integers of the source's shifts, Cbor/Values encodeValue and encode, Cbor/Texts
--   what TextDecoder makes of bytes, and Cbor/Decoder the class Decoder. A string is its UTF-8; an
--   object is a list of assignments, and its prototype is left out. decode takes fuel for levels and
--   items, which fuel_for in Cbor/Fitting counts.
-- * The DID directory. Directory.antt has the checks of
--   src/typescript/lib/hono-factory-did-plc-directory/validation.ts, Directory/Store the in-memory store of
--   storage/plc-store.ts there, and Directory/Create the handler handleCreateOp of handlers.ts. A body and
--   an operation are JSON values (Json.antt), since the code casts what it has not looked into.
--   Directory/Links and Directory/Chain are about the chain of the operations that count.
-- * Identifiers. Hex.antt and Base32.antt are the codecs of
--   src/typescript/lib/hono-factory-atproto-repo/util/bytes.ts, Cid.antt is util/cid.ts there, and Tid.antt
--   the record keys of util/tid.ts. What the source shifts is divided and multiplied by powers of two.
-- * CAR files. Car.antt is src/typescript/lib/hono-factory-atproto-repo/repo/car.ts, and Car/Collecting its
--   collectAllBlocks over a block store that is a function. The import takes a unit of fuel for each
--   byte, and the collection one for each CID of the store.
--
-- Base.antt passes on the library's names and the shared lemmas on lists, texts (lists of code units),
-- dictionaries (association lists in insertion order, as a Map is), results and traces.
--
-- Not modelled: the logging and the HTTP framework, signing keys and the creation of tokens, the CIDs of
-- tree nodes and the block stores, the head and the signature of a commit, the rest of the market, the compute services and the spindle
-- glue.
pub mod Base
pub mod Base32
pub mod Car
pub mod Cbor
pub mod Cid
pub mod Commits
pub mod Directory
pub mod Firehose
pub mod Hex
pub mod Json
pub mod Market
pub mod Mst
pub mod Oidc
pub mod Rbac
pub mod Relay
pub mod Tid
