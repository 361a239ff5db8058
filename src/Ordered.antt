-- ===== src/Ordered.antt =====
-- Ordered ingress, framework/src/actor/OrderedSession.cc (the sender of an authorised stream) and
-- framework/src/actor/OrderedIngress.cc (its receiver), with the types and errors they share.
pub mod Types
pub mod ErrorDomain
pub mod Ingress
pub mod Session
