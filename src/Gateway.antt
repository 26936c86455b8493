-- ===== src/Gateway.antt =====
-- gateway/: who may connect and use which tools, frames, hooks, methods and connections. The handlers of
-- the methods are not modelled.
pub mod ToolPolicy
pub mod Frame
pub mod Hooks
pub mod Auth
pub mod Handshake
pub mod Protocol
pub mod Connection
pub mod RateLimiter
pub mod WorkspaceFile
pub mod Params
pub mod CronHandler
pub mod ToolHandler
