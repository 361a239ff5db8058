-- ===== src/Host/Dispatcher.antt =====
-- framework/src/host/InboundDispatcher.cc: the dispatch of an inbound call, by the parts of the
-- source.
pub mod Decimal
pub mod Digest
pub mod Metadata
pub mod State
pub mod Ordered
pub mod Enter
pub mod Leave
pub mod System
pub mod Orderly
pub mod Counts
pub mod Drained
pub mod Replies
