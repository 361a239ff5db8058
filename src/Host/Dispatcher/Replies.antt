-- ===== src/Host/Dispatcher/Replies.antt =====
-- framework/src/host/InboundDispatcher.cc: the fields of a reply that associate it with its request,
-- on every path of `Dispatch`.
use bbt_framework.Prelude.{
  ◌≡◌, refl, subst, not, Option, none, some, String, String_discrete, lookup, arith, Option-cases,
  inl, inr, if_both, leb,
}
use bbt_framework.Infra.{Infra, Result, Result-cases, ok, err}
use bbt_framework.Actor.Registry.{ActorRegistry, get_or_create}
use bbt_framework.Ordered.Ingress.{OrderedTerminalReply, Admission, CachedKey}
use bbt_framework.Ordered.Ingress.Admit.{admit}
use bbt_framework.Ordered.Ingress.Complete.{complete}
use bbt_framework.Host.Methods.{RpcMethod, find_method}
use bbt_framework.Host.Dispatcher.Metadata.{MetadataFields}
use bbt_framework.Host.Dispatcher.State.{
  IncomingCallContext, RpcEnvelope, RequestContext, PerService, InboundDispatcher, Pending, Stage,
  refused, running, waiting, Target, reply_of, resolve, resolve-IsTarget, IsTarget, take_place,
  Task,
}
use bbt_framework.Host.Dispatcher.Ordered.{
  admit_ordered, ordered_request, Admitted, answered, goes_on, completed, finish_ordered_error,
  finish_ordered_ok, replay_reply, of_admission, answer_after,
}
use bbt_framework.Host.Dispatcher.Enter.{
  Moment, Progress, replies, stays, Left, Outcome, replied, pending, enter, settle, start,
  start_keyed, start_actor, after_admission, wait_for_actor, context_of,
}
use bbt_framework.Host.Dispatcher.Leave.{
  Ending, leave, waited, written, finish_stage, finish_waiting,
}

-- A reply is an error, or has the five fields of its request and its method.
abbrev pub IsReplyTo : RpcEnvelope → RpcMethod → Result RpcEnvelope → Type 0
IsReplyTo request method (err e) = Unit {0}
IsReplyTo request method (ok reply) =
    (reply.service ≡ request.service)
    × (reply.method ≡ request.method)
    × (reply.request_id ≡ request.request_id)
    × (reply.request_schema ≡ method.request_schema)
    × (reply.response_schema ≡ method.response_schema)

module _ ⦃infra : Infra⦄ where
  of_admission-IsReplyTo :
      (request : RpcEnvelope) (method : RpcMethod) (decision : Result Admission)
      (reply : Result RpcEnvelope)
      → of_admission request method decision ≡ answered reply
      → IsReplyTo request method reply
  unfolding of_admission replay_reply reply_of
  of_admission-IsReplyTo request method (err e) (err f) h = tt
  of_admission-IsReplyTo request method (err e) (ok reply) h = absurd (ground arith)
  of_admission-IsReplyTo request method (ok a) (err f) h = tt
  of_admission-IsReplyTo request method (ok a) (ok reply) h = ground arith

  answer_after-IsReplyTo :
      (request : RpcEnvelope) (method : RpcMethod) (result : Result (Unit {0}))
      (reply : Result RpcEnvelope)
      → IsReplyTo request method reply
      → IsReplyTo request method (answer_after result reply)
  answer_after-IsReplyTo request method (ok _) reply h = h
  answer_after-IsReplyTo request method (err e) reply h = tt

module _ {I : Type 0} ⦃infra : Infra⦄ where
  completed-IsReplyTo :
      (request : RpcEnvelope) (method : RpcMethod) (stale : CachedKey → CachedKey)
      (admission : Option Admission) (terminal : OrderedTerminalReply) (reply : Result RpcEnvelope)
      (svc : PerService I)
      → IsReplyTo request method reply
      → IsReplyTo request method (completed stale admission terminal reply svc).1
  unfolding completed
  completed-IsReplyTo request method stale none terminal reply svc h = h
  completed-IsReplyTo request method stale (some a) terminal reply svc h =
      elim (Option-cases svc.entry.ordered_ingress) [
        | inl e ↦ rw (e, completed) h
        | inr (ingress, e) ↦
            rw (e, completed)
              (answer_after-IsReplyTo request method (complete stale a terminal ingress).1 reply h)
      ]

  finish_stage-IsReplyTo :
      (ending : Ending) (p : Pending) (stage : Stage) (svc : PerService I)
      → IsReplyTo p.request p.method (finish_stage ending p stage svc).1
  unfolding finish_stage finish_waiting finish_ordered_error finish_ordered_ok reply_of
  finish_stage-IsReplyTo ending p refused svc = tt
  finish_stage-IsReplyTo ending p running svc = elim (Result-cases ending.handler) [
    | inl (e, h) ↦ rw (h, finish_stage) tt
    | inr (payload, h) ↦ rw (h, finish_stage) (refl, refl, refl, refl, refl)
  ]
  finish_stage-IsReplyTo ending p (waiting admission slot) svc =
      elim (Result-cases (waited ending.status (written ending.task slot))) [
        | inl (e, h) ↦
            rw (h, finish_waiting)
              (completed-IsReplyTo p.request p.method ending.stale admission _ (err _) svc tt)
        | inr (payload, h) ↦
            rw (h, finish_waiting)
              (completed-IsReplyTo p.request p.method ending.stale admission _
                (ok (reply_of p.request p.method payload)) svc (refl, refl, refl, refl, refl))
      ]

  admit_ordered-IsReplyTo :
      (incoming : IncomingCallContext) (request : RpcEnvelope) (method : RpcMethod)
      (fields : MetadataFields) (key : String) (svc : PerService I) (reply : Result RpcEnvelope)
      → (admit_ordered incoming request method fields key svc).1 ≡ answered reply
      → IsReplyTo request method reply
  unfolding admit_ordered
  admit_ordered-IsReplyTo incoming request method fields key svc (err e) h = tt
  admit_ordered-IsReplyTo incoming request method fields key svc (ok reply) h =
      elim (Option-cases svc.entry.ordered_ingress) [
        | inl e ↦ absurd (ground arith)
        | inr (ingress, e) ↦
            of_admission-IsReplyTo request method
              (admit (ordered_request incoming request fields key) ingress).1 (ok reply)
              (ground arith)
      ]

-- A call that has its reply has one to its request.
abbrev AnswersTo : RpcEnvelope → RpcMethod → Progress → Type 0
AnswersTo request method (replies reply) = IsReplyTo request method reply
AnswersTo request method (stays stage) = Unit {0}

module _ {F I : Type 0} ⦃infra : Infra⦄ where
  wait_for_actor-AnswersTo :
      (request : RpcEnvelope) (method : RpcMethod) (m : Moment F I) (key : String) (task : Task I)
      (admission : Option Admission) (svc : PerService I) (registry : ActorRegistry F I)
      → AnswersTo request method (wait_for_actor m key task admission svc registry).progress
  unfolding wait_for_actor finish_ordered_error
  wait_for_actor-AnswersTo request method m key task admission svc registry =
      if_both {A = Left F I} (λ l. AnswersTo request method l.progress) (not m.waiter_created) _ _
        (λ _. completed-IsReplyTo request method m.stale admission _ (err _) _ tt)
        (λ _.
          if_both {A = Left F I} (λ l. AnswersTo request method l.progress) (not m.registers) _ _
            (λ _. tt) (λ _. tt))

  after_admission-AnswersTo :
      (m : Moment F I) (request : RpcEnvelope) (method : RpcMethod) (context : RequestContext)
      (key : String) (svc : PerService I) (registry : ActorRegistry F I) (admitted : Admitted)
      → ((reply : Result RpcEnvelope) → admitted ≡ answered reply → IsReplyTo request method reply)
      → AnswersTo request method
          (after_admission m request method context key svc registry admitted).progress
  unfolding after_admission start_actor finish_ordered_error
  after_admission-AnswersTo m request method context key svc registry (answered reply) h =
      h reply refl
  after_admission-AnswersTo m request method context key svc registry (goes_on admission) h =
      elim (Result-cases (get_or_create m.call request.service key registry).1) [
        | inl (e, f) ↦
            rw (f, start_actor)
              (completed-IsReplyTo request method m.stale admission _ (err _) svc tt)
        | inr (object, f) ↦
            rw (f, start_actor)
              (wait_for_actor-AnswersTo request method m key
                (record {
                  context = context;
                  method = method;
                  object = object;
                  payload = request.payload;
                })
                admission svc (get_or_create m.call request.service key registry).0)
      ]

  start_keyed-AnswersTo :
      (m : Moment F I) (incoming : IncomingCallContext) (request : RpcEnvelope) (target : Target I)
      (context : RequestContext) (svc : PerService I) (registry : ActorRegistry F I)
      → AnswersTo request target.method
          (start_keyed m incoming request target context svc registry).progress
  unfolding start_keyed
  start_keyed-AnswersTo m incoming request target context svc registry =
      elim (Result-cases (target.method.extract_key request.payload)) [
        | inl (e, h) ↦ rw (h, start_keyed) tt
        | inr (key, h) ↦
            rw (h, start_keyed)
              (after_admission-AnswersTo m request target.method
                (record context { actor_key = some key }) key
                (admit_ordered incoming request target.method target.fields key svc).0 registry
                (admit_ordered incoming request target.method target.fields key svc).1
                (admit_ordered-IsReplyTo incoming request target.method target.fields key svc))
      ]

  start-AnswersTo :
      (m : Moment F I) (incoming : IncomingCallContext) (request : RpcEnvelope) (target : Target I)
      (svc : PerService I) (registry : ActorRegistry F I)
      → AnswersTo request target.method (start m incoming request target svc registry).progress
  unfolding start
  start-AnswersTo m incoming request target svc registry =
      if_both {A = Left F I} (λ l. AnswersTo request target.method l.progress)
        (leb (context_of incoming request target.fields).deadline m.now) _ _ (λ _. tt)
        (λ _.
          if_both {A = Left F I} (λ l. AnswersTo request target.method l.progress)
            target.method.actor_keyed _ _
            (λ _.
              start_keyed-AnswersTo m incoming request target
                (context_of incoming request target.fields) svc registry)
            (λ _. elim (Option-cases svc.entry.bound) [ inl e ↦ rw e tt | inr (x, e) ↦ rw e tt ]))

  -- The reply to a request that some method of the dispatcher's services answers.
  abbrev pub MatchesRequest : InboundDispatcher F I → RpcEnvelope → RpcEnvelope → Type 0
  MatchesRequest d request reply =
      (svc : PerService I) × (method : RpcMethod) × (lookup String_discrete request.service
          d.services
        ≡ some svc)
      × (find_method request.method svc.entry.table ≡ some method)
      × (request.request_schema ≡ method.request_schema)
      × IsReplyTo request method (ok reply)

  abbrev Answers : InboundDispatcher F I → RpcEnvelope → Outcome → Type 0
  Answers d request (replied (err e)) = Unit {0}
  Answers d request (replied (ok reply)) = MatchesRequest d request reply
  Answers d request (pending p) =
      (target : Target I) × IsTarget request (lookup String_discrete request.service d.services)
        target
      × (p.request ≡ request)
      × (p.method ≡ target.method)

  settle-Answers :
      (incoming : IncomingCallContext) (request : RpcEnvelope) (target : Target I) (left : Left F I)
      (d : InboundDispatcher F I)
      → IsTarget request (lookup String_discrete request.service d.services) target
      → AnswersTo request target.method left.progress
      → Answers d request (settle incoming request target left d).1
  unfolding settle
  settle-Answers incoming request target left d t h = by_progress left.progress refl h
    where
      by_progress :
          (pr : Progress)
          → left.progress ≡ pr
          → AnswersTo request target.method pr
          → Answers d request (settle incoming request target left d).1
      by_progress (replies (err e)) eq a = rw (eq, settle) tt
      by_progress (replies (ok reply)) eq a =
          rw (eq, settle) (target.service, target.method, t.0, t.1, t.2, a)
      by_progress (stays stage) eq a = rw (eq, settle) (target, t, refl, refl)

  enter-Answers :
      (m : Moment F I) (incoming : IncomingCallContext) (request : RpcEnvelope)
      (d : InboundDispatcher F I)
      → Answers d request (enter m incoming request d).1
  unfolding enter
  enter-Answers m incoming request d = elim (Result-cases (resolve request d)) [
    | inl (e, h) ↦ rw (h, enter) tt
    | inr (target, h) ↦
        let t = resolve-IsTarget request d target h in
        rw (h, enter)
          (if_both {A = InboundDispatcher F I × Outcome} (λ out. Answers d request out.1)
            (leb target.service.entry.options.max_inflight target.service.inflight) _ _
            (λ _. (target, t, refl, refl))
            (λ _.
              settle-Answers incoming request target
                (start m incoming request target (take_place target.service) d.registry) d t
                (start-AnswersTo m incoming request target (take_place target.service) d.registry)))
  ]

  leave-IsReplyTo :
      (ending : Ending) (p : Pending) (d after : InboundDispatcher F I) (reply : Result RpcEnvelope)
      → leave ending p d ≡ some (after, reply)
      → IsReplyTo p.request p.method reply
  unfolding leave
  leave-IsReplyTo ending p d after reply h =
      elim (Option-cases (lookup String_discrete p.request.service d.services)) [
        | inl e ↦ absurd (ground arith)
        | inr (svc, e) ↦
            let same : (finish_stage ending p p.stage svc).1 ≡ reply = ground arith in
            subst (λ r. IsReplyTo p.request p.method r) same
              (finish_stage-IsReplyTo ending p p.stage svc)
      ]

  -- What a call is answered with, at once or when it ends.
  pub data Gets (m : Moment F I) (incoming : IncomingCallContext) (request : RpcEnvelope)
      (d : InboundDispatcher F I) : Result RpcEnvelope → Type 0 where
    at_once :
        {r : Result RpcEnvelope}
        → (enter m incoming request d).1 ≡ replied r
        → Gets m incoming request d r
    at_end :
        {r : Result RpcEnvelope} (p : Pending) (ending : Ending)
        (seen after : InboundDispatcher F I)
        → (enter m incoming request d).1 ≡ pending p
        → leave ending p seen ≡ some (after, r)
        → Gets m incoming request d r

  -- A successful reply, made at once or when the call ends, whatever became of the dispatcher in the
  -- meantime, has the service, the method, the id and the request schema of its request, and the
  -- response schema of the method that the request names.
  pub replies_associated :
      (m : Moment F I) (incoming : IncomingCallContext) (request reply : RpcEnvelope)
      (d : InboundDispatcher F I)
      → Gets m incoming request d (ok reply)
      → MatchesRequest d request reply
  replies_associated m incoming request reply d (at_once h) =
      subst (λ out. Answers d request out) h (enter-Answers m incoming request d)
  replies_associated m incoming request reply d (at_end p ending seen after h l) =
      let (target, t, same_request, same_method) =
        subst (λ out. Answers d request out) h (enter-Answers m incoming request d) in
      let r = leave-IsReplyTo ending p seen after (ok reply) l in
      (
        target.service,
        target.method,
        t.0,
        t.1,
        t.2,
        subst (λ q. IsReplyTo q target.method (ok reply)) same_request
            (subst (λ n. IsReplyTo p.request n (ok reply)) same_method r),
      )
