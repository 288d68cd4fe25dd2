-- ===== src/Lib.antt =====
-- The verification library of the meshserver: spaces with members and roles, channels with messages,
-- direct messages between two users, and uploads, behind a server of streams.
--
-- The program. A client opens a libp2p stream, signs in and sends requests in length-prefixed envelopes
-- (internal/protocol) to a session (internal/session). The session checks the client's role and calls
-- the services (internal/service), which check the request and call the repository
-- (internal/repository/mysql), whose methods read and write the tables; an uploaded file goes to the
-- blob store (internal/media, internal/storage). The HTTP interface calls the session manager's
-- ForAPI methods. New messages are pushed to the sessions that subscribed to the channel.
--
-- The files.
--   Base: the shared types. Result and Exec are Go's `(T, error)` with and without state; a transaction
--     keeps what its body wrote or, on an error, nothing. Tables are lists of rows (Base.Tables), ORDER
--     BY is a stable sort (Base.Sorting), strings are lists of code points with Go's `len` and
--     `strings.TrimSpace` (Base.Text).
--   Model: the enumerations of internal/space, internal/channel and internal/message, the rows of the
--     tables, and the database.
--   Store.Spaces: internal/repository/mysql/server.go, and refreshAggregateCounts of bootstrap.go.
--     CreateSpace is create_space, KickSpaceMember kick_space_member, and so on; a name that ends in
--     _body is what stands between BeginTxx and Commit.
--   Store.Direct: internal/repository/mysql/direct_chat.go. Store.Channels: channel.go. Store.Messages:
--     message.go. Store.Reads: read_and_auth.go. Store.Users: user.go.
--   Service.Direct: internal/service/direct_chat.go. Service.Channels: internal/service/messaging.go.
--   Auth: internal/auth/service.go.
--   Store.Media: internal/repository/mysql/blob.go. Store.Bootstrap: default_admin_bootstrap.go.
--   Session.Wire: the decoded requests and answers. Session.Convert: internal/session/convert.go and the
--     conversions of manager.go. Session.Hub: the sets of sessions of manager.go and realtime.go.
--     Session.Api: the ForAPI methods of manager.go and manager_v1_rest.go. Session.Node,
--     Session.Handlers and Session.Dispatch: the state (hub, tables, packets written), the cases of
--     dispatch, one handle_ function each, and dispatch and HandleStream of manager.go.
--   Protocol: internal/protocol/codec.go on lists of bytes.
--   Media: internal/media/blob_service.go, internal/storage/local.go and internal/service/media.go, with
--     the files as a list.
--   Tests: small databases, runs of the code on them, and the theorems applied to them.
--
-- Conventions. Time, the ids that newExternalID draws, and the database's collation are arguments,
-- and so are, where they are called, SaveUploadedBlob of the media service, the keys, signatures and
-- hashes of authentication, libp2p's peer ids, protobuf, SHA-256, and the detection of types. Times
-- are milliseconds. Where a method makes several statements outside a transaction, a function
-- `between` stands for what other requests do to the database in between;
-- transactions are serialised, as their row locks make them. A unique key that an INSERT would
-- violate is an error; a failure of the connection or of Commit is not modelled. An error inside a
-- transaction leaves the tables as they were; that some checks return it without the Rollback, so
-- that row locks stay until the context of the call ends, is not modelled. Ids are compared exactly:
-- the columns' collation ignores case, so that ids which differ in case alone are outside the model.
-- LastInsertId of a space or channel is cut to 32 bits as in the source. Sequence numbers are unbounded
-- here and uint64 there; `limit+1` of SyncChannel wraps at 2 ^ 32. Every loop is over a list, but for the
-- digits of a decimal number n, where fuel n + 1 is enough since n has at most n + 1 digits, and for
-- the client that follows pages, whose fuel is how far ahead the number of a message is.
--
-- A stream's write fails where protobuf cannot encode the packet or its envelope, above 8 MiB, and on a
-- closed stream; the encodings are arguments (Session.Node.Wire). An event that no envelope holds does
-- not reach the sessions; whether the stream of another session is closed is not modelled, so that
-- what a session is sent is what its stream is given. A request whose body protobuf cannot decode is not
-- among the requests; requests are handled one after the other, so that the locks of the manager are
-- left out. The order in which a set of sessions receives an event is arbitrary in
-- Go and that of the set here. Files are read and written without failures of the disk.
--
-- Not modelled: node registration, the transport of HTTP and WebSocket, JSON web tokens, generated
-- code, libp2p and IPFS, configuration and start-up, and the example clients. They are I/O, glue or
-- third-party code.
pub mod Base
pub mod Model
pub mod Store
pub mod Auth
pub mod Service
pub mod Session
pub mod Protocol
pub mod Media
pub mod Tests
