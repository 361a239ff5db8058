-- ===== src/Host/Dispatcher/System.antt =====
-- framework/src/host/InboundDispatcher.cc: the calls of a dispatcher in any order. A step takes one
-- call to its first suspension, or from there to its reply, or does anything else to one service
-- that leaves its options and its counter alone: mailboxes run their tasks, and grants change.
use bbt_framework.Prelude.{
  ℕ, ◌+◌, ◌<◌, ◌≤◌, ◌≡◌, Bool, true, false, List, [], ◌∷◌, ◌++◌, some, String, String_discrete,
  lookup, length, if◌then◌else◌, u64_max,
}
use bbt_framework.Infra.{Infra, Result}
use bbt_framework.Ordered.Types.{◌==ₛ◌}
use bbt_framework.Actor.Registry.{ActorRegistry}
use bbt_framework.Host.Dispatcher.State.{
  IncomingCallContext, RpcEnvelope, PerService, InboundDispatcher, Pending, Stage, refused,
}
use bbt_framework.Host.Dispatcher.Enter.{Moment, Outcome, replied, pending, enter, put}
use bbt_framework.Host.Dispatcher.Leave.{Ending, leave}

pub record System (F I : Type 0) : Type 0 where
  pub dispatcher : InboundDispatcher F I
  pub calls : List Pending

abbrev pub is_refused : Stage → Bool
is_refused refused = true
is_refused _ = false

unfoldable pub holds_place : String → Pending → ℕ
holds_place name p = if p.request.service ==ₛ name then 1 else 0

unfoldable pub was_admitted : String → Pending → ℕ
unfolding holds_place
was_admitted name p = if is_refused p.stage then 0 else holds_place name p

-- The calls of a service that hold a place in its counter.
unfoldable pub in_service : String → List Pending → ℕ
in_service name [] = 0
in_service name (p ∷ ps) = holds_place name p + in_service name ps

-- Those among them that were admitted.
unfoldable pub admitted_to : String → List Pending → ℕ
admitted_to name [] = 0
admitted_to name (p ∷ ps) = was_admitted name p + admitted_to name ps

abbrev pub joined : Outcome → List Pending → List Pending
joined (replied _) ps = ps
joined (pending p) ps = p ∷ ps

module _ {F I : Type 0} ⦃infra : Infra⦄ where
  -- Fewer calls than a counter of 64 bits can count are in flight at once.
  pub data Step (s : System F I) : System F I → Type 0 where
    enters :
        (m : Moment F I) (incoming : IncomingCallContext) (request : RpcEnvelope)
        → length s.calls < u64_max
        → Step s (record {
          dispatcher = (enter m incoming request s.dispatcher).0;
          calls = joined (enter m incoming request s.dispatcher).1 s.calls;
        })
    leaves :
        (ending : Ending) (before after : List Pending) (p : Pending) (d : InboundDispatcher F I)
        (reply : Result RpcEnvelope)
        → s.calls ≡ before ++ p ∷ after
        → leave ending p s.dispatcher ≡ some (d, reply)
        → Step s (record { dispatcher = d; calls = before ++ after })
    runs_on :
        (name : String) (svc later : PerService I) (registry : ActorRegistry F I)
        → lookup String_discrete name s.dispatcher.services ≡ some svc
        → later.inflight ≡ svc.inflight
        → later.entry.options ≡ svc.entry.options
        → Step s (record s { dispatcher = put name later registry s.dispatcher })

  -- A dispatcher starts with no call in flight.
  abbrev pub Fresh : InboundDispatcher F I → Type 0
  Fresh d =
      (name : String) (svc : PerService I)
      → lookup String_discrete name d.services ≡ some svc
      → svc.inflight ≡ 0

  pub data Reach (d : InboundDispatcher F I) : System F I → Type 0 where
    begin : Reach d (record { dispatcher = d; calls = [] })
    later : {s t : System F I} → Reach d s → Step s t → Reach d t

  -- A counter has one unit for each call of the service that is in flight, and no more calls than the
  -- limit have been admitted.
  abbrev pub Counted : System F I → Type 0
  Counted s =
      (length s.calls ≤ u64_max)
      × ((name : String) (svc : PerService I)
          → lookup String_discrete name s.dispatcher.services ≡ some svc
          → (svc.inflight ≡ in_service name s.calls)
            × (admitted_to name s.calls ≤ svc.entry.options.max_inflight))
