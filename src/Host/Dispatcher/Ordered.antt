-- ===== src/Host/Dispatcher/Ordered.antt =====
-- framework/src/host/InboundDispatcher.cc: the ordered part of `Dispatch`, which is the admission of
-- a request before its actor sees it, and the completion of what was admitted.
use bbt_framework.Prelude.{true, not, Option, none, some, String, ◌++ₛ◌, if◌then◌else◌}
use bbt_framework.Infra.{Infra, make_error, Error, Result, ok, err, runtime_unavailable}
use bbt_framework.Ordered.ErrorDomain.{safe_boundary_error}
use bbt_framework.Ordered.Ingress.{
  OrderedIngressRequest, OrderedTerminalReply, Admission, execute, replays, CachedKey,
}
use bbt_framework.Ordered.Ingress.Admit.{admit, blank_reply}
use bbt_framework.Ordered.Ingress.Complete.{complete}
use bbt_framework.Host.Methods.{RpcMethod}
use bbt_framework.Host.Dispatcher.Metadata.{MetadataFields}
use bbt_framework.Host.Dispatcher.Digest.{ordered_request_digest}
use bbt_framework.Host.Dispatcher.State.{
  IncomingCallContext, RpcEnvelope, PerService, with_ingress, reply_of,
}

-- The request that the ingress sees.
unfoldable pub ordered_request :
    IncomingCallContext → RpcEnvelope → MetadataFields → String → OrderedIngressRequest
ordered_request incoming request fields key = record {
  method = request.method;
  actor_key = key;
  peer_principal = incoming.peer_principal;
  has_ordered_stamp = fields.has_sequence;
  producer_id = fields.producer_id;
  producer_epoch = fields.producer_epoch;
  receiver_epoch = fields.receiver_epoch;
  sequence = fields.sequence;
  request_id = request.request_id;
  request_digest = ordered_request_digest request.method key request.payload;
}

-- A request is answered at its admission, or goes on, with an admission if its service is ordered.
pub data Admitted : Type 0 where
  answered : Result RpcEnvelope → Admitted
  goes_on : Option Admission → Admitted

module _ ⦃infra : Infra⦄ where
  -- A cached reply leaves the component, its error checked at the boundary once more.
  unfoldable pub replay_reply : RpcEnvelope → RpcMethod → OrderedTerminalReply → Result RpcEnvelope
  unfolding reply_of
  replay_reply request method replay =
      if replay.is_ok
      then ok (reply_of request method replay.payload)
      else err (safe_boundary_error replay.error)

  unfoldable pub of_admission : RpcEnvelope → RpcMethod → Result Admission → Admitted
  unfolding replay_reply
  of_admission request method (err e) = answered (err e)
  of_admission request method (ok a) = elim a.kind [
    | replays ↦ answered (replay_reply request method a.replay)
    | execute ↦ goes_on (some a)
  ]

  -- The reply stands if the completion succeeds.
  abbrev pub answer_after : Result (Unit {0}) → Result RpcEnvelope → Result RpcEnvelope
  answer_after (ok _) reply = reply
  answer_after (err e) reply = err e

module _ {I : Type 0} ⦃infra : Infra⦄ where
  unfoldable pub admit_ordered :
      IncomingCallContext
      → RpcEnvelope
      → RpcMethod
      → MetadataFields
      → String
      → PerService I
      → PerService I × Admitted
  unfolding of_admission
  admit_ordered incoming request method fields key svc =
      if not svc.entry.options.ordered_ingress
      then (svc, goes_on none)
      else elim svc.entry.ordered_ingress [
        | none ↦ (
          svc,
          answered (
              err (
                make_error runtime_unavailable
                  ("ordered ingress is not bound for service '" ++ₛ request.service ++ₛ "'"))),
        )
        | some ingress ↦
            let (after, decision) = admit (ordered_request incoming request fields key) ingress in
            (with_ingress after svc, of_admission request method decision)
      ]

  -- The completion of an admission, and the reply that follows it. Only a service with an ingress
  -- has admissions.
  unfoldable pub completed :
      (CachedKey → CachedKey)
      → Option Admission
      → OrderedTerminalReply
      → Result RpcEnvelope
      → PerService I
      → PerService I × Result RpcEnvelope
  completed stale none terminal reply svc = (svc, reply)
  completed stale (some a) terminal reply svc = elim svc.entry.ordered_ingress [
    | none ↦ (svc, reply)
    | some ingress ↦
        let (after, result) = complete stale a terminal ingress in
        (with_ingress after svc, answer_after result reply)
  ]

  -- The lambda `finish_ordered_error`
  unfoldable pub finish_ordered_error :
      (CachedKey → CachedKey)
      → Option Admission
      → Error
      → PerService I
      → PerService I × Result RpcEnvelope
  unfolding completed
  finish_ordered_error stale admission error svc =
      let safe = safe_boundary_error error in
      completed stale admission (record blank_reply { error = safe }) (err safe) svc

  -- The completion of a request that has its result.
  unfoldable pub finish_ordered_ok :
      (CachedKey → CachedKey)
      → Option Admission
      → RpcEnvelope
      → RpcMethod
      → String
      → PerService I
      → PerService I × Result RpcEnvelope
  unfolding completed reply_of
  finish_ordered_ok stale admission request method payload svc =
      completed stale admission (record blank_reply { is_ok = true; payload = payload })
        (ok (reply_of request method payload)) svc
