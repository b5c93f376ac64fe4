-- ===== src/Api.antt =====
-- internal/api: the handlers. A handler is a function of what it reads (the request, the session's
-- user, clocks, fresh identifiers, which calls of the store fail) and of the server's state.
pub mod Expiry
pub mod RateLimit
pub mod Secret
pub mod Signature
pub mod Encode
pub mod Capture
pub mod Answer
pub mod Payload
pub mod Manage
pub mod Change
pub mod Settings
pub mod Upkeep
pub mod Guarded
pub mod ListQuery
pub mod GrantHandlers
pub mod AdminHandlers
pub mod Sharing
pub mod AuthHandlers
pub mod Sse
pub mod AuthCallback
pub mod RequestHandlers
pub mod RequestRemoval
pub mod RequestScope
pub mod Compare
pub mod Replay
pub mod Paging
pub mod OpenApiSchema
pub mod OpenApi
pub mod ActionConfig
pub mod ActionRuns
pub mod ActionHandlers
pub mod ActionUpkeep
