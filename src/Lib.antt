-- ===== src/Lib.antt =====
-- A model of the control plane of niova-mdsvc: how block-storage services (NISDs) are registered in a
-- hierarchy of failure domains, how the chunks of a virtual device (vdev) are placed on them, who may call
-- which function, how users are kept and log in, and how entities are stored and read back.
--
-- The parts and their files. Paths are from the repository's root.
-- CpLib: controlplane/ctlplanefuncs/lib/libctlplanefuncs.go. The data types and constants; CpLib.Entities
--   has the hardware and chunks, CpLib.Domains the levels, CpLib.Blocks the counts of chunks and blocks,
--   CpLib.Hash the allocation hash and CpLib.Validate and CpLib.Names the checks of requests. `uuid.Parse`
--   and `net.ParseIP` are parameters.
-- BTree: the counted B-tree of github.com/tidwall/btree as a record of operations and laws, and in
--   BTree.Lists an implementation that meets them.
-- Hierarchy: controlplane/ctlplanefuncs/server/hierarchy.go. A level is a tree of entities, an entity a
--   tree of devices, a device a list of pointers to NISDs. The five levels share the NISDs, so these are read
--   through a heap; entities and devices belong to one tree only and a write through their pointer is a
--   write of that tree. Hierarchy.Devices counts the space of a device, Hierarchy.View sees a level as one
--   map, Hierarchy.Register has registration, Hierarchy.Levels the choice of a level, and Hierarchy.Pick the
--   choice of a device and of a NISD.
-- Commit and Alloc: controlplane/ctlplanefuncs/server/srvctlplanefuncs.go. Commit has the keys and changes
--   of an allocation; Alloc has `allocateNisdPerChunk`, Alloc.Levels the loops over chunks and levels,
--   Alloc.Apply what becomes of an allocation; Alloc.Search, Alloc.Picks, Alloc.Isolation, Alloc.Placement,
--   Alloc.Placed and Alloc.Chunk have the proofs. An allocation reads the hierarchy and threads its own maps: the usage of devices and the
--   space left of NISDs; `applyNISDAlloc` then carries the latter back.
-- Authorizer: controlplane/authorizer/authorizer.go, with the default policies in Authorizer.Defaults. The
--   data store is the parameter `read`.
-- Session, Populate, Store and Prepare: the handlers' parts. Session has `ValidateToken` and
--   `validateAndAuthorizeRBAC` of srvctlplanefuncs.go over the verification of a token, Populate the changes
--   of controlplane/ctlplanefuncs/server/populate.go, Store `applyKV` and `deleteKV` over a data store that
--   is a record of operations and laws, with a table in Store.Table that meets them, and Prepare the
--   handlers `WPNisdCfg` and `WPCreateVdev`, which call the other three; Prepare.Hardware has the
--   handlers that store hardware, as controlplane/pmdbServer/pmdbServer.go registers them. Prepare.Granted
--   follows a vdev from its creation through the store to the authorizer, which reads the same store.
-- Keys and Parser: controlplane/ctlplanefuncs/server/parser.go. Keys cuts a stored key at its slashes. A
--   `ParseEntity` of Parser is the interface of that name: how a new entity is made and how a field is read
--   into it; the loops of the parser gather the pairs of a read result by the ID in the key. Parser.Hardware
--   and Parser.Storage have the parsers of the entities. Parser.Grouping says what the loops give for an ID,
--   Parser.Fields, Parser.Stored, Parser.Holds and Parser.Switch how one field is found again among the
--   pairs of an entity, and Parser.Restored and Parser.RoundTrip put these together. `time.Parse` is a
--   parameter, a panic of a parser is `none`.
-- Handlers: srvctlplanefuncs.go again, the handlers that read the store and apply changes to it. They take the
--   claims from Session, the decision from Authorizer, entities from Parser, and write through Store. A range
--   read is by prefix (Store.Ranges, with the table of Store.Pairs); a page of one is a `RangeReadResult`.
--   Handlers.Mount has `WPMountVdev` and `APMountVdev`, with proofs in Handlers.Named, Handlers.Mounted
--   and Handlers.Spaced;
--   Handlers.Delete has `APDeleteVdev`, with proofs in Handlers.Refunds, Handlers.Gathered, Handlers.Paged,
--   Handlers.DeletedKeys and Handlers.Deleted; Handlers.Create has `APCreateVdev`, which calls Alloc, with
--   proofs in Handlers.Sizes, Handlers.Planned, Handlers.Created and Handlers.Unchanged; Handlers.Register has
--   `ApplyFunc` and `ApplyNisd`, with proofs in Handlers.Registered; Handlers.Read has the handlers that read
--   entities, with proofs in Handlers.Listings, and Handlers.FileSystem those of file systems. A time is the
--   number of nanoseconds since Go's zero time.
-- User: controlplane/user/lib and controlplane/user/server. User has the data types of
--   controlplane/user/lib and the keys and parser of users, User.Handlers the helpers of handlers.go,
--   User.PutUser, User.Login, User.GetUser and User.Admin the handlers, User.Login also `CreateToken` of
--   controlplane/auth/jwt/jwt-token.go. The range read of the store, encryption, decryption, the signing and
--   verification of tokens and new random values are parameters. User.Changed and User.Callers have the lemmas
--   of updates and callers, User.Creates, User.Updated, User.Updates, User.Named, User.Sessions, User.Views, User.Persisted,
--   User.Fields and User.RoundTrip the proofs.
-- Prelude: shared names, tests and lemmas, in Prelude.Texts the string functions of the Go library that the
--   code calls and in Prelude.Numbers those of numbers in text.
-- Tests has the theorems at concrete inputs.
--
-- A Go int, int64 or uint64 is its bit pattern, a number below 2 ^ 64, with the wrap-around written out.
-- A stored value is a text with a character for a byte. Error values are the `err` of `Outcome`, run-time
-- panics its `panic`. The search for an entity is a loop that may run for ever: it is on fuel, and `running`
-- means that the fuel was used up. So is the loop of `APDeleteVdev` over the pages of a range read, where a
-- round for each page is enough. The other loops are structural; `split` and the scan of a number go over
-- the characters of their text.
--
-- Not modelled: logging, metrics and the encoding of messages; the handlers of snapshots and those
-- that read chunks; the encryption of secret keys, the proxy, the clients and the user interface.
pub mod Prelude
pub mod Keys
pub mod BTree
pub mod CpLib
pub mod Hierarchy
pub mod Commit
pub mod Parser
pub mod Alloc
pub mod Authorizer
pub mod Populate
pub mod Store
pub mod Session
pub mod Prepare
pub mod User
pub mod Handlers
pub mod Tests
