-- ===== src/Lib.antt =====
-- HookWatch receives webhooks: a hook is a token with a URL, a request to the URL is stored, shown to
-- subscribers and run through the actions of the hook. This is a model of the server's core in Go,
-- with theorems on what it does.
--
-- The files and the code that they are about:
--   Models          internal/models/models.go: the records that all parts pass around.
--   Store           internal/store: the tables, the operations on them and the foreign keys. Db is the
--                   schema of `migrate`; Tokens, Requests, Users, Sessions, Grants, Actions, ActionLogs
--                   and RateLimits have one function for each method of `Store`, with its name,
--                   Listing has ListTokens, RequestLists and PeopleLists the other lists. Order is
--                   what is used of ORDER BY and of transactions.
--   Authz           internal/authz/authz.go: who may do what to a hook. It asks the store for grants.
--   Hub             internal/hub/hub.go: the channels that events are published to.
--   Header          `http.Header` and `url.Values`, as internal/api uses them.
--   Worker          internal/worker: the actions of a hook. Executors and Forward are the executors,
--                   Pipeline the loop, Execution all of ExecuteActions, Codec the outside.
--   Auth            internal/auth: Auth has the sessions of auth.go, Password registration and login,
--                   Oidc oidc.go, Redirect the path after a login, Gate middleware.go. Sessions has
--                   the calls that touch the table of sessions, and an abstract map for them.
--   Api             internal/api: Expiry is expiry.go, RateLimit ratelimit.go, Secret secret.go,
--                   Signature signature.go, Encode and Capture capture.go. A capture passes RateLimit,
--                   loads its token by Expiry, asks Secret and Signature, writes to the store, publishes
--                   to the hub and starts the worker. Answer is what handlers answer and how they begin
--                   (the load, the policy), with access.go; Payload, Manage and Change are tokens.go;
--                   ActionConfig and ActionHandlers actions.go; ListQuery the query strings of the lists;
--                   RequestHandlers and RequestRemoval requests.go and export.go; Compare, Replay,
--                   OpenApi and OpenApiSchema requests_advanced.go; GrantHandlers grants.go;
--                   AdminHandlers admin.go; AuthHandlers auth.go; Sse the text of an event in events.go.
--   Tests           the theorems at concrete inputs, and runs of the definitions.
-- A child module holds proofs about its parent, or (in Store, Worker, Auth and Api) a part of it.
-- Beside the parts, Auth.Accounts and Arrival, and Api.Settings, Upkeep, Guarded, Sharing, AuthCallback,
-- RequestScope, Paging, ActionRuns and ActionUpkeep hold proofs about several of them.
--
-- How the code is modelled:
--   * A time is the number of nanoseconds since Go's zero time, so 0 is `IsZero`; a stored time is what
--     its text denotes, whole seconds, and 0 for NULL. A duration is an integer of nanoseconds.
--   * A table is a list of rows in the order of insertion. A statement is a function of the tables that
--     returns its error or result and the tables after it. Its first arguments say which of its SQLite
--     calls fail, so a theorem for all of them covers every failure. Cascades and constraints are
--     written out from the schema.
--   * The sort of ORDER BY and the end of a transaction are interfaces with their documented behaviour:
--     the same rows in ascending order; a commit without an error and a rollback with one.
--   * A handler is a function of the request, of clocks and fresh identifiers, of the failures of its
--     calls, and of the tables and the hub. An operation is one
--     step, and an interleaving a sequence of steps. For Subscribe, Unsubscribe and single statements
--     this is what the lock and SQLite do. Publish sends after it has released the lock, so the steps of
--     the hub include a single late send to any channel. IncrementRateLimit is two statements without a
--     transaction, and a handler several calls: for them a step is a run that nothing comes between.
--   * SHA-256, HMAC, bcrypt, JSON, MIME, regular expressions, url.Parse, oauth2, go-oidc and the HTTP
--     client are functions that the model is given, with nothing assumed of them but what a theorem says.
--     A payload is the decoded record, `none` where it does not decode; an answer carries a status with
--     the row or the message in place of their JSON form.
--   * A text is a list of characters; the length of a password is the number of bytes of its UTF-8. The
--     body and the content of a request stand byte by byte, one character for each.
--   * `strings.ToLower` and `ToUpper` are those of ASCII.
--   * All loops are structural recursion, on lists; there is no fuel.
--
-- What is not modelled: the sending of a replay and the stream of server-sent events (I/O around
-- what is modelled), the discovery of an identity provider, the attributes of cookies, the
-- migrations of older schemas, the periodic loops around their modelled steps, the semaphore of the
-- worker, the router and the frontend. Counts, sizes and times are unbounded numbers; the product of
-- seconds that makes a timeout of a forward and the product that makes the offset of a page wrap
-- around at 2 ^ 64, as in the code.
pub mod Prelude
pub mod Models
pub mod Header
pub mod Store
pub mod Authz
pub mod Hub
pub mod Worker
pub mod Auth
pub mod Api
mod Tests
