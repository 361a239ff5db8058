-- ===== src/Host/App.antt =====
-- framework/src/host/App.cc: the control plane of an application, by the parts of the source.
pub mod Ids
pub mod Cycle
pub mod Edges
pub mod StartOrder
pub mod Bind
pub mod History
pub mod Control
pub mod Stages
pub mod Stop
pub mod Uninstall
pub mod Connect
pub mod Install
pub mod Drained
