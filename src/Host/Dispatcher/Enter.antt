-- ===== src/Host/Dispatcher/Enter.antt =====
-- framework/src/host/InboundDispatcher.cc, `Dispatch` up to its first suspension: the checks, the
-- place in the service, and the hand-over to the actor's mailbox. `Moment` is what the rest of the
-- process answers in the meantime.
use bbt_framework.Prelude.{
  ℕ, ◌-◌, Bool, not, Option, none, some, String, if◌then◌else◌, leb, String_discrete, insert,
}
use bbt_framework.Infra.{
  Infra, make_error, Error, Result, ok, err, runtime_unavailable, timed_out, internal_error,
}
use bbt_framework.Actor.Mailbox.{try_enqueue}
use bbt_framework.Actor.Registry.{ActorRegistry, Activation, get_or_create}
use bbt_framework.Ordered.Ingress.{Admission, CachedKey}
use bbt_framework.Host.Methods.{RpcMethod}
use bbt_framework.Host.Dispatcher.Metadata.{MetadataFields}
use bbt_framework.Host.Dispatcher.State.{
  IncomingCallContext, RpcEnvelope, RequestContext, Task, PerService, InboundDispatcher, Pending,
  Stage, refused, running, waiting, take_place, give_back, with_mailbox, mailbox_for, resolve,
  Target,
}
use bbt_framework.Host.Dispatcher.Ordered.{
  admit_ordered, Admitted, answered, goes_on, finish_ordered_error,
}

-- What the process answers: the clock, the factory, `CoWaiter::Create`, whether `WaitWithCallback`
-- runs its callback, and the scheduler. `stale` is what a destroyed key of the cache reads.
pub record Moment (F I : Type 0) : Type 0 where
  pub now : ℕ
  pub call : F → Activation I
  pub waiter_created : Bool
  pub registers : Bool
  pub spawns : Bool
  pub stale : CachedKey → CachedKey

-- A call is answered, or it is suspended or runs its handler.
pub data Progress : Type 0 where
  replies : Result RpcEnvelope → Progress
  stays : Stage → Progress

-- What a part of `Dispatch` leaves.
pub record Left (F I : Type 0) : Type 0 where
  pub service : PerService I
  pub registry : ActorRegistry F I
  pub progress : Progress

-- `kReplyDeliveryReserve`, in milliseconds
abbrev pub reply_delivery_reserve : ℕ
reply_delivery_reserve = 20

-- A deadline before the zero of the clock is held as 0, which is past too.
unfoldable pub context_of : IncomingCallContext → RpcEnvelope → MetadataFields → RequestContext
context_of incoming request fields = record {
  request_id = request.request_id;
  actor_key = none;
  deadline = incoming.deadline - reply_delivery_reserve;
  peer_principal = incoming.peer_principal;
  trace_id = fields.trace_id;
}

module _ ⦃infra : Infra⦄ where
  -- The first value of the slot.
  abbrev pub no_result : Result String
  no_result = err (make_error internal_error "actor task produced no result")

  -- The slot after the callback: an error of the mailbox stands in it.
  abbrev pub slot_after : Result (Unit {0}) → Result String
  slot_after (ok _) = no_result
  slot_after (err e) = err e

module _ {F I : Type 0} ⦃infra : Infra⦄ where
  abbrev pub failed :
      Moment F I → Option Admission → Error → PerService I → ActorRegistry F I → Left F I
  failed m admission error svc registry =
      let (after, reply) = finish_ordered_error m.stale admission error svc in
      record { service = after; registry = registry; progress = replies reply }

  -- The wait for the actor: the callback gives the task to the mailbox.
  unfoldable pub wait_for_actor :
      Moment F I → String → Task I → Option Admission → PerService I → ActorRegistry F I → Left F I
  wait_for_actor m key task admission svc registry =
      let box = mailbox_for key svc in
      let made = with_mailbox key box svc in
      if not m.waiter_created
      then failed m admission (make_error runtime_unavailable "co waiter unavailable") made registry
      else if not m.registers
      then record {
        service = made;
        registry = registry;
        progress = stays (waiting admission no_result);
      }
      else let attempt = try_enqueue m.spawns (some task) box in
        record {
          service = with_mailbox key attempt.box svc;
          registry = registry;
          progress = stays (waiting admission (slot_after attempt.reply));
        }

  unfoldable pub start_actor :
      Moment F I
      → RpcEnvelope
      → RpcMethod
      → RequestContext
      → String
      → Option Admission
      → PerService I
      → ActorRegistry F I
      → Left F I
  unfolding wait_for_actor
  start_actor m request method context key admission svc registry =
      let (activated, instance_of) = get_or_create m.call request.service key registry in
      elim instance_of [
        | err e ↦ failed m admission e svc activated
        | ok object ↦
            let task : Task I = record {
              context = context;
              method = method;
              object = object;
              payload = request.payload;
            } in
            wait_for_actor m key task admission svc activated
      ]

  unfoldable pub after_admission :
      Moment F I
      → RpcEnvelope
      → RpcMethod
      → RequestContext
      → String
      → PerService I
      → ActorRegistry F I
      → Admitted
      → Left F I
  unfolding start_actor
  after_admission m request method context key svc registry (answered reply) = record {
    service = svc;
    registry = registry;
    progress = replies reply;
  }
  after_admission m request method context key svc registry (goes_on admission) =
      start_actor m request method context key admission svc registry

  unfoldable pub start_keyed :
      Moment F I
      → IncomingCallContext
      → RpcEnvelope
      → Target I
      → RequestContext
      → PerService I
      → ActorRegistry F I
      → Left F I
  unfolding after_admission
  start_keyed m incoming request target context svc registry =
      elim (target.method.extract_key request.payload) [
        | err e ↦ record { service = svc; registry = registry; progress = replies (err e) }
        | ok key ↦
            let (after, admitted) =
              admit_ordered incoming request target.method target.fields key svc in
            after_admission m request target.method (record context { actor_key = some key }) key
              after registry admitted
      ]

  -- What follows once the call has its place.
  unfoldable pub start :
      Moment F I
      → IncomingCallContext
      → RpcEnvelope
      → Target I
      → PerService I
      → ActorRegistry F I
      → Left F I
  unfolding start_keyed context_of
  start m incoming request target svc registry =
      let context = context_of incoming request target.fields in
      if leb context.deadline m.now
      then record {
        service = svc;
        registry = registry;
        progress = replies (
            err
              (make_error timed_out "inbound request budget already expired before handler entry"));
      }
      else if target.method.actor_keyed
      then start_keyed m incoming request target context svc registry
      else record {
        service = svc;
        registry = registry;
        progress = elim svc.entry.bound [
          | some _ ↦ stays running
          | none ↦ replies (err (make_error runtime_unavailable "service instance not bound"))
        ];
      }

  abbrev pub put :
      String → PerService I → ActorRegistry F I → InboundDispatcher F I → InboundDispatcher F I
  put name svc registry d = record d {
    services = insert String_discrete name svc d.services;
    registry = registry;
  }

-- What `Dispatch` has come to: a reply, or a call that goes on later.
pub data Outcome : Type 0 where
  replied : Result RpcEnvelope → Outcome
  pending : Pending → Outcome

abbrev pub pending_of :
    {I : Type 0} → IncomingCallContext → RpcEnvelope → Target I → Stage → Pending
pending_of incoming request target stage = record {
  request = request;
  method = target.method;
  context = context_of incoming request target.fields;
  stage = stage;
}

module _ {F I : Type 0} ⦃infra : Infra⦄ where
  -- The guard gives the place back when the call is answered.
  unfoldable pub settle :
      IncomingCallContext
      → RpcEnvelope
      → Target I
      → Left F I
      → InboundDispatcher F I
      → InboundDispatcher F I × Outcome
  settle incoming request target left d = elim left.progress [
    | replies reply ↦ (put request.service (give_back left.service) left.registry d, replied reply)
    | stays stage ↦ (
      put request.service left.service left.registry d,
      pending (pending_of incoming request target stage),
    )
  ]

  unfoldable pub enter :
      Moment F I
      → IncomingCallContext
      → RpcEnvelope
      → InboundDispatcher F I
      → InboundDispatcher F I × Outcome
  unfolding settle start
  enter m incoming request d = elim (resolve request d) [
    | err e ↦ (d, replied (err e))
    | ok target ↦
        let svc = target.service in
        if leb svc.entry.options.max_inflight svc.inflight
        then (
          put request.service (take_place svc) d.registry d,
          pending (pending_of incoming request target refused),
        )
        else settle incoming request target
            (start m incoming request target (take_place svc) d.registry) d
  ]
