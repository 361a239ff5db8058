-- ===== src/Host/Dispatcher/Orderly.antt =====
-- framework/src/host/InboundDispatcher.cc: what `Dispatch` does to a service, other than to its
-- counter, leaves the counter and the options as they are.
use bbt_framework.Prelude.{
  ◌≡◌, ◌≢◌, refl, ◌∙◌, Option, none, some, String, arith, leb, inl, inr, if_both, not,
}
use bbt_framework.Infra.{Infra, Error, Result, Result-cases}
use bbt_framework.Actor.Registry.{ActorRegistry, get_or_create}
use bbt_framework.Ordered.Ingress.{OrderedTerminalReply, Admission, CachedKey}
use bbt_framework.Host.Methods.{RpcMethod}
use bbt_framework.Host.Dispatcher.Metadata.{MetadataFields}
use bbt_framework.Host.Dispatcher.State.{
  IncomingCallContext, RpcEnvelope, RequestContext, PerService, Pending, Stage, refused, running,
  waiting, Target, Task, with_mailbox, mailbox_for,
}
use bbt_framework.Host.Dispatcher.Ordered.{
  admit_ordered, Admitted, answered, goes_on, completed, finish_ordered_error, finish_ordered_ok,
}
use bbt_framework.Host.Dispatcher.Enter.{
  Moment, stays, Left, start, start_keyed, start_actor, after_admission, wait_for_actor, context_of,
  failed,
}
use bbt_framework.Host.Dispatcher.Leave.{Ending, waited, written, finish_stage, finish_waiting}

module _ {I : Type 0} where
  -- The counter and the options of a service are as they were.
  abbrev pub Keeps : PerService I → PerService I → Type 0
  Keeps svc after = (after.inflight ≡ svc.inflight) × (after.entry.options ≡ svc.entry.options)

module _ {I : Type 0} ⦃infra : Infra⦄ where
  pub completed-Keeps :
      (stale : CachedKey → CachedKey) (admission : Option Admission)
      (terminal : OrderedTerminalReply) (reply : Result RpcEnvelope) (svc : PerService I)
      → Keeps svc (completed stale admission terminal reply svc).0
  unfolding completed
  completed-Keeps stale none terminal reply svc = (refl, refl)
  completed-Keeps stale (some a) terminal reply svc = ground arith

  pub finish_stage-Keeps :
      (ending : Ending) (p : Pending) (stage : Stage) (svc : PerService I)
      → Keeps svc (finish_stage ending p stage svc).0
  unfolding finish_stage finish_waiting finish_ordered_error finish_ordered_ok
  finish_stage-Keeps ending p refused svc = (refl, refl)
  finish_stage-Keeps ending p running svc = (refl, refl)
  finish_stage-Keeps ending p (waiting admission slot) svc =
      elim (Result-cases (waited ending.status (written ending.task slot))) [
        | inl (e, h) ↦ rw (h, finish_waiting) (completed-Keeps _ _ _ _ svc)
        | inr (payload, h) ↦ rw (h, finish_waiting) (completed-Keeps _ _ _ _ svc)
      ]

  admit_ordered-Keeps :
      (incoming : IncomingCallContext) (request : RpcEnvelope) (method : RpcMethod)
      (fields : MetadataFields) (key : String) (svc : PerService I)
      → Keeps svc (admit_ordered incoming request method fields key svc).0
  unfolding admit_ordered
  admit_ordered-Keeps incoming request method fields key svc = ground arith

module _ {F I : Type 0} ⦃infra : Infra⦄ where
  -- A part of `Dispatch` keeps the counter, and its call is not one that was refused a place.
  abbrev pub IsOrderly : PerService I → Left F I → Type 0
  IsOrderly svc left = Keeps svc left.service × (left.progress ≢ stays refused)

  failed-IsOrderly :
      (m : Moment F I) (admission : Option Admission) (e : Error) (svc : PerService I)
      (registry : ActorRegistry F I)
      → IsOrderly svc (failed m admission e svc registry)
  unfolding finish_ordered_error
  failed-IsOrderly m admission e svc registry =
      (completed-Keeps m.stale admission _ _ svc, ground arith)

  wait_for_actor-IsOrderly :
      (m : Moment F I) (key : String) (task : Task I) (admission : Option Admission)
      (svc : PerService I) (registry : ActorRegistry F I)
      → IsOrderly svc (wait_for_actor m key task admission svc registry)
  unfolding wait_for_actor
  wait_for_actor-IsOrderly m key task admission svc registry =
      if_both (IsOrderly svc) (not m.waiter_created) _ _
        (λ _. failed-IsOrderly m admission _ (with_mailbox key (mailbox_for key svc) svc) registry)
        (λ _.
          if_both (IsOrderly svc) (not m.registers) _ _ (λ _. ((refl, refl), ground arith))
            (λ _. ((refl, refl), ground arith)))

  start_actor-IsOrderly :
      (m : Moment F I) (request : RpcEnvelope) (method : RpcMethod) (context : RequestContext)
      (key : String) (admission : Option Admission) (svc : PerService I)
      (registry : ActorRegistry F I)
      → IsOrderly svc (start_actor m request method context key admission svc registry)
  unfolding start_actor
  start_actor-IsOrderly m request method context key admission svc registry =
      elim (Result-cases (get_or_create m.call request.service key registry).1) [
        | inl (e, h) ↦
            rw (h, start_actor)
              (failed-IsOrderly m admission e svc
                (get_or_create m.call request.service key registry).0)
        | inr (object, h) ↦
            rw (h, start_actor)
              (wait_for_actor-IsOrderly m key
                (record {
                  context = context;
                  method = method;
                  object = object;
                  payload = request.payload;
                })
                admission svc (get_or_create m.call request.service key registry).0)
      ]

  after_admission-IsOrderly :
      (m : Moment F I) (request : RpcEnvelope) (method : RpcMethod) (context : RequestContext)
      (key : String) (before svc : PerService I) (registry : ActorRegistry F I)
      (admitted : Admitted)
      → Keeps before svc
      → IsOrderly before (after_admission m request method context key svc registry admitted)
  unfolding after_admission
  after_admission-IsOrderly m request method context key before svc registry (answered reply) k =
      (k, ground arith)
  after_admission-IsOrderly m request method context key before svc registry (goes_on admission) k =
      let ((c, o), p) = start_actor-IsOrderly m request method context key admission svc registry in
      ((c ∙ k.0, o ∙ k.1), p)

  start_keyed-IsOrderly :
      (m : Moment F I) (incoming : IncomingCallContext) (request : RpcEnvelope) (target : Target I)
      (context : RequestContext) (svc : PerService I) (registry : ActorRegistry F I)
      → IsOrderly svc (start_keyed m incoming request target context svc registry)
  unfolding start_keyed
  start_keyed-IsOrderly m incoming request target context svc registry =
      elim (Result-cases (target.method.extract_key request.payload)) [
        | inl (e, h) ↦ rw (h, start_keyed) ((refl, refl), ground arith)
        | inr (key, h) ↦
            rw (h, start_keyed)
              (after_admission-IsOrderly m request target.method
                (record context { actor_key = some key }) key svc _ registry
                (admit_ordered incoming request target.method target.fields key svc).1
                (admit_ordered-Keeps incoming request target.method target.fields key svc))
      ]

  pub start-IsOrderly :
      (m : Moment F I) (incoming : IncomingCallContext) (request : RpcEnvelope) (target : Target I)
      (svc : PerService I) (registry : ActorRegistry F I)
      → IsOrderly svc (start m incoming request target svc registry)
  unfolding start
  start-IsOrderly m incoming request target svc registry =
      if_both (IsOrderly svc) (leb (context_of incoming request target.fields).deadline m.now) _ _
        (λ _. ((refl, refl), ground arith))
        (λ _.
          if_both (IsOrderly svc) target.method.actor_keyed _ _
            (λ _.
              start_keyed-IsOrderly m incoming request target
                (context_of incoming request target.fields) svc registry)
            (λ _. ((refl, refl), ground arith)))
