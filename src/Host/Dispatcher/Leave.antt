-- ===== src/Host/Dispatcher/Leave.antt =====
-- framework/src/host/InboundDispatcher.cc, `Dispatch` from its suspension to its reply.
use bbt_framework.Prelude.{ℕ, Option, none, some, String, String_discrete, lookup, ◌++ₛ◌, to_string}
use bbt_framework.Infra.{
  Infra, make_error, Result, ok, err, runtime_unavailable, timed_out, cancelled, overloaded,
  internal_error,
}
use bbt_framework.Ordered.Ingress.{Admission, CachedKey}
use bbt_framework.Host.Dispatcher.State.{
  RpcEnvelope, PerService, InboundDispatcher, Pending, Stage, refused, running, waiting, give_back,
  reply_of,
}
use bbt_framework.Host.Dispatcher.Ordered.{finish_ordered_error, finish_ordered_ok}
use bbt_framework.Host.Dispatcher.Enter.{put}

-- `bbt::coroutine::WaitStatus`; `unexpected` has the number of any other enumerator.
pub data WaitStatus : Type 0 where
  completed timed_out_waiting cancelled_waiting no_runtime no_coroutine : WaitStatus
  unexpected : ℕ → WaitStatus

-- How a call ends: the answer of its inline handler, or the status of its wait and what the task has
-- written into the slot, if it ran.
pub record Ending : Type 0 where
  pub handler : Result String
  pub status : WaitStatus
  pub task : Option (Result String)
  pub stale : CachedKey → CachedKey

module _ ⦃infra : Infra⦄ where
  -- The slot when the wait has ended.
  abbrev pub written : Option (Result String) → Result String → Result String
  written none slot = slot
  written (some r) slot = r

  -- The switch on the status: an error, or the content of the slot.
  unfoldable pub waited : WaitStatus → Result String → Result String
  waited completed slot = slot
  waited timed_out_waiting slot =
      err (make_error timed_out "actor handler did not finish within request budget")
  waited cancelled_waiting slot =
      err (make_error cancelled "inbound request cancelled while queued/running")
  waited no_runtime slot =
      err (make_error runtime_unavailable "runtime unavailable while waiting actor result")
  waited no_coroutine slot =
      err (make_error runtime_unavailable "inbound dispatch requires a coroutine context")
  waited (unexpected n) slot =
      err (make_error internal_error ("unexpected wait status " ++ₛ to_string n))

module _ {I : Type 0} ⦃infra : Infra⦄ where
  unfoldable pub finish_waiting :
      Ending
      → Pending
      → Option Admission
      → Result String
      → PerService I
      → PerService I × Result RpcEnvelope
  unfolding waited
  finish_waiting ending p admission slot svc =
      elim (waited ending.status (written ending.task slot)) [
        | err e ↦ finish_ordered_error ending.stale admission e svc
        | ok payload ↦ finish_ordered_ok ending.stale admission p.request p.method payload svc
      ]

  unfoldable pub finish_stage :
      Ending → Pending → Stage → PerService I → PerService I × Result RpcEnvelope
  unfolding finish_waiting reply_of
  finish_stage ending p refused svc = (
    svc,
    err (
        make_error overloaded
          ("inbound dispatch: service '" ++ₛ p.request.service ++ₛ "' reached max_inflight")),
  )
  finish_stage ending p running svc = (
    svc,
    elim ending.handler [ err e ↦ err e | ok payload ↦ ok (reply_of p.request p.method payload) ],
  )
  finish_stage ending p (waiting admission slot) svc = finish_waiting ending p admission slot svc

module _ {F I : Type 0} ⦃infra : Infra⦄ where
  -- The services of a dispatcher never change, so the call finds its own; it gives its place back.
  unfoldable pub leave :
      Ending → Pending → InboundDispatcher F I → Option (InboundDispatcher F I × Result RpcEnvelope)
  unfolding finish_stage
  leave ending p d = elim (lookup String_discrete p.request.service d.services) [
    | none ↦ none
    | some svc ↦
        let (after, reply) = finish_stage ending p p.stage svc in
        some (put p.request.service (give_back after) d.registry d, reply)
  ]
