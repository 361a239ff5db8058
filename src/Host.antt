-- ===== src/Host.antt =====
-- framework/src/host: the life of the process, the registry of managed objects, routes, the options
-- of outgoing calls, request scopes, and the validation of service options (framework/src/ExecutionPolicy.cc).
pub mod Lifecycle
pub mod Registry
pub mod Routes
pub mod CallOptions
pub mod Policy
pub mod Scope
pub mod Methods
pub mod Dispatcher
pub mod Runtime
pub mod App
