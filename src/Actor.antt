-- ===== src/Actor.antt =====
-- framework/src/actor: the mailbox and the activation registry of actors.
pub mod Mailbox
pub mod Registry
