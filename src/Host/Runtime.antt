-- ===== src/Host/Runtime.antt =====
-- framework/src/host/AppRuntimeState.cc and framework/include/bbt/framework/RpcPolicy.hpp: the
-- outgoing calls of an application with their policy, and the runtime objects that are published
-- when it has started and released when it stops. The policy and the two ways out are functions
-- that the application is given; what is handed to a way out is recorded.
pub mod Egress
pub mod Released
use bbt_framework.Prelude.{
  ℕ, ◌≤◌, ◌<◌, ◌≡◌, ◌⊎◌, inl, inr, refl, ap, Bool, true, false, List, [], ◌∷◌, Option, none, some,
  String, String_discrete, Dict, lookup, ltb, leb, ◌++ₛ◌, if◌then◌else◌, arith, Option-cases,
  Bool-cases,
}
use bbt_framework.Infra.{
  Infra, Error, make_error, Result, Result-cases, ok, err, not_found, runtime_unavailable,
  timed_out,
}
use bbt_framework.Host.Routes.{RpcAddress, DynamicRouteTable, has_service}
use bbt_framework.Host.Routes
use bbt_framework.Host.Methods.{RpcMethod}
use bbt_framework.Host.Dispatcher.State.{IncomingCallContext, RpcEnvelope, InboundDispatcher}
use bbt_framework.Host.Dispatcher.Enter.{Moment, Outcome, replied, enter}

pub record RpcCallView : Type 0 where
  pub target : RpcAddress
  pub request : RpcEnvelope
  pub deadline : ℕ

-- `RpcPolicyDecision`
pub data RpcPolicyDecision : Type 0 where
  allows : Option ℕ → RpcPolicyDecision
  rejects : Error → RpcPolicyDecision

-- A way out: `HttpEgress::Send` or the seam of the tests.
abbrev pub Egress : Type 0
Egress = RpcCallView → Result RpcEnvelope

-- The registry of actors is the dispatcher's; here it is only held or not.
pub record AppRuntimeState (F I : Type 0) : Type 0 where
  pub routes : Dict String RpcAddress
  pub dynamic_routes : Option DynamicRouteTable
  pub rpc_policy : Option (RpcCallView → Result RpcPolicyDecision)
  pub default_egress : Option Egress
  pub seam_send : Option Egress
  pub dispatcher : Option (InboundDispatcher F I)
  pub tables : Dict String (List RpcMethod)
  pub instances : Dict String I
  pub holds_registry : Bool

-- The smaller of the deadline and the limit of the policy.
abbrev pub least : ℕ → Option ℕ → ℕ
least deadline none = deadline
least deadline (some limit) = if ltb limit deadline then limit else deadline

module _ ⦃infra : Infra⦄ where
  abbrev pub static_route : String → Dict String RpcAddress → Result RpcAddress
  static_route service routes = elim (lookup String_discrete service routes) [
    | some a ↦ ok a
    | none ↦ err (
        make_error not_found ("find_route: no configured target for service '" ++ₛ service ++ₛ "'"))
  ]

  -- `FindRoute`, with the table as its cursors leave it.
  unfoldable pub find_route :
      ℕ
      → String
      → Option DynamicRouteTable
      → Dict String RpcAddress
      → Option DynamicRouteTable × Result RpcAddress
  unfolding Routes.resolve has_service
  find_route now service none routes = (none, static_route service routes)
  find_route now service (some t) routes =
      if has_service service t
      then (let (after, target) = Routes.resolve now service t in (some after, target))
      else (some t, static_route service routes)

  -- The deadline after the policy, or its refusal.
  unfoldable pub tighten : ℕ → ℕ → RpcPolicyDecision → Result ℕ
  tighten now deadline (rejects e) = err e
  tighten now deadline (allows limit) =
      let tightened = least deadline limit in
      if leb tightened now
      then err (make_error timed_out "rpc policy tightened deadline already expired")
      else ok tightened

  unfoldable pub preflight :
      ℕ → Option (RpcCallView → Result RpcPolicyDecision) → RpcCallView → Result ℕ
  unfolding tighten
  preflight now none view = ok view.deadline
  preflight now (some policy) view = elim (policy view) [
    | err e ↦ err e
    | ok decision ↦ tighten now view.deadline decision
  ]

  -- What goes out, and the reply.
  unfoldable pub transfer :
      Option Egress → Option Egress → RpcCallView → List RpcCallView × Result RpcEnvelope
  transfer (some egress) seam view = (view ∷ [], egress view)
  transfer none (some seam) view = (view ∷ [], seam view)
  transfer none none view =
      ([], err (make_error runtime_unavailable "CoApp: rpc_send egress not configured"))

module _ {F I : Type 0} ⦃infra : Infra⦄ where
  abbrev pub with_routes : Option DynamicRouteTable → AppRuntimeState F I → AppRuntimeState F I
  with_routes t s = record s { dynamic_routes = t }

  -- `Send`; `routed` and `now` are the two readings of the clock.
  unfoldable pub send :
      ℕ
      → ℕ
      → RpcEnvelope
      → ℕ
      → AppRuntimeState F I
      → AppRuntimeState F I × (List RpcCallView × Result RpcEnvelope)
  unfolding find_route preflight transfer
  send routed now env deadline s =
      let (table, found) = find_route routed env.service s.dynamic_routes s.routes in
      let after = with_routes table s in
      elim found [
        | err e ↦ (after, ([], err e))
        | ok target ↦
            let view : RpcCallView = record {
              target = target;
              request = env;
              deadline = deadline;
            } in
            elim (preflight now s.rpc_policy view) [
              | err e ↦ (after, ([], err e))
              | ok effective ↦ (
                after,
                transfer s.default_egress s.seam_send (record view { deadline = effective }),
              )
            ]
      ]

  unfoldable pub publish :
      InboundDispatcher F I
      → Dict String (List RpcMethod)
      → Dict String I
      → AppRuntimeState F I
      → AppRuntimeState F I
  publish d t inst s = record s {
    tables = t;
    instances = inst;
    holds_registry = true;
    dispatcher = some d;
  }

  unfoldable pub release : AppRuntimeState F I → AppRuntimeState F I
  release s = record s { dispatcher = none; tables = []; instances = []; holds_registry = false }

  -- `Dispatch` up to the first suspension.
  unfoldable pub dispatch :
      Moment F I
      → IncomingCallContext
      → RpcEnvelope
      → AppRuntimeState F I
      → AppRuntimeState F I × Outcome
  unfolding enter
  dispatch m incoming request s = elim s.dispatcher [
    | none ↦ (
      s,
      replied (
          err
            (make_error runtime_unavailable "dispatch runtime not published or already released")),
    )
    | some d ↦
        let (after, outcome) = enter m incoming request d in
        (record s { dispatcher = some after }, outcome)
  ]
