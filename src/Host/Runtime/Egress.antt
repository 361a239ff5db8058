-- ===== src/Host/Runtime/Egress.antt =====
-- framework/src/host/AppRuntimeState.cc, `Send`: what goes out.
use bbt_framework.Prelude.{
  ℕ, ◌≤◌, ◌<◌, ◌≡◌, inl, inr, refl, List, [], ◌∷◌, Option, none, some, String, String_discrete,
  Dict, lookup, if◌then◌else◌, arith, Bool-cases,
}
use bbt_framework.Infra.{Infra, Error, Result, Result-cases, ok, err}
use bbt_framework.Host.Routes.{RpcAddress, DynamicRouteTable, has_service}
use bbt_framework.Host.Routes
use bbt_framework.Host.Dispatcher.State.{RpcEnvelope}
use bbt_framework.Host.Runtime.{
  RpcCallView, RpcPolicyDecision, allows, rejects, Egress, AppRuntimeState, find_route, least,
  tighten, preflight, transfer, send, static_route,
}

-- What a policy, if there is one, has said of a call that goes out.
abbrev pub Permits : ℕ → RpcCallView → ℕ → Option (RpcCallView → Result RpcPolicyDecision) → Type 0
Permits now view effective none = effective ≡ view.deadline
Permits now view effective (some policy) =
    (limit : Option ℕ) × (policy view ≡ ok (allows limit))
    × (effective ≡ least view.deadline limit)
    × (now < effective)

-- Where the target of a call comes from: a service that the dynamic table knows is never looked up
-- among the fixed routes.
abbrev pub IsRoute :
    ⦃infra : Infra⦄
    → ℕ
    → String
    → Option DynamicRouteTable
    → Dict String RpcAddress
    → RpcAddress
    → Type 0
IsRoute now service none routes a = lookup String_discrete service routes ≡ some a
IsRoute now service (some t) routes a =
    if has_service service t
    then (Routes.resolve now service t).1 ≡ ok a
    else lookup String_discrete service routes ≡ some a

module _ ⦃infra : Infra⦄ where
  preflight-Permits :
      (now : ℕ) (policy : Option (RpcCallView → Result RpcPolicyDecision)) (view : RpcCallView)
      (effective : ℕ)
      → preflight now policy view ≡ ok effective
      → Permits now view effective policy
  unfolding preflight tighten
  preflight-Permits now none view effective h = ground arith
  preflight-Permits now (some policy) view effective h = by_answer (policy view) refl h
    where
      by_answer :
          (answer : Result RpcPolicyDecision)
          → policy view ≡ answer
          → (elim answer [ err e ↦ err e | ok decision ↦ tighten now view.deadline decision ])
            ≡ ok effective
          → Permits now view effective (some policy)
      by_answer (err e) eq g = absurd (ground arith)
      by_answer (ok (rejects e)) eq g = absurd (ground arith)
      by_answer (ok (allows limit)) eq g = (limit, eq, ground arith, ground arith)

  static_route-lookup :
      (service : String) (routes : Dict String RpcAddress) (a : RpcAddress)
      → static_route service routes ≡ ok a
      → lookup String_discrete service routes ≡ some a
  static_route-lookup service routes a h = ground arith

  find_route-IsRoute :
      (now : ℕ) (service : String) (table : Option DynamicRouteTable)
      (routes : Dict String RpcAddress) (a : RpcAddress)
      → (find_route now service table routes).1 ≡ ok a
      → IsRoute now service table routes a
  unfolding find_route
  find_route-IsRoute now service none routes a h = static_route-lookup service routes a h
  find_route-IsRoute now service (some t) routes a h = elim (Bool-cases (has_service service t)) [
    | inl e ↦ rw e (ground arith)
    | inr e ↦ rw e (static_route-lookup service routes a (ground arith))
  ]

least-le : (deadline : ℕ) (limit : Option ℕ) → least deadline limit ≤ deadline
least-le deadline none = omega arith
least-le deadline (some l) = ground arith

Permits-le :
    (now : ℕ) (view : RpcCallView) (effective : ℕ)
    (policy : Option (RpcCallView → Result RpcPolicyDecision))
    → Permits now view effective policy
    → effective ≤ view.deadline
Permits-le now view effective none h = omega (arith, h)
Permits-le now view effective (some policy) (limit, _, same, _) =
    omega (arith, same, least-le view.deadline limit)

module _ ⦃infra : Infra⦄ where
  -- What a call hands to a way out and replies: nothing and an error, or one transfer that its route
  -- and its policy bear out.
  abbrev pub IsBorneOut :
      (routed now : ℕ)
      → RpcEnvelope
      → ℕ
      → Option DynamicRouteTable
      → Dict String RpcAddress
      → Option (RpcCallView → Result RpcPolicyDecision)
      → List RpcCallView × Result RpcEnvelope
      → Type 0
  IsBorneOut routed now env deadline table routes policy ([], reply) = (e : Error) × (reply ≡ err e)
  IsBorneOut routed now env deadline table routes policy (v ∷ more, reply) =
      (more ≡ [])
      × (v.request ≡ env)
      × (v.deadline ≤ deadline)
      × IsRoute routed env.service table routes v.target
      × Permits now (record { target = v.target; request = env; deadline = deadline }) v.deadline
          policy

  transfer-IsBorneOut :
      (routed now : ℕ) (view : RpcCallView) (effective : ℕ) (egress seam : Option Egress)
      (table : Option DynamicRouteTable) (routes : Dict String RpcAddress)
      (policy : Option (RpcCallView → Result RpcPolicyDecision))
      → IsRoute routed view.request.service table routes view.target
      → Permits now view effective policy
      → IsBorneOut routed now view.request view.deadline table routes policy
          (transfer egress seam (record view { deadline = effective }))
  unfolding transfer
  transfer-IsBorneOut routed now view effective (some egress) seam table routes policy r p =
      (refl, refl, Permits-le now view effective policy p, r, p)
  transfer-IsBorneOut routed now view effective none (some seam) table routes policy r p =
      (refl, refl, Permits-le now view effective policy p, r, p)
  transfer-IsBorneOut routed now view effective none none table routes policy r p = (_, refl)

module _ {F I : Type 0} ⦃infra : Infra⦄ where
  -- A call either hands nothing to a way out and replies an error, or hands over exactly one
  -- transfer: of the request as it was given, to the target of its route, which is one of the dynamic
  -- table wherever that knows the service, with a deadline no later than the one asked for. Where a
  -- policy is installed, it has allowed just this call, the deadline is the smaller of the asked and
  -- the allowed one, and it is still ahead.
  pub send-IsBorneOut :
      (routed now : ℕ) (env : RpcEnvelope) (deadline : ℕ) (s : AppRuntimeState F I)
      → IsBorneOut routed now env deadline s.dynamic_routes s.routes s.rpc_policy
          (send routed now env deadline s).1
  unfolding send
  send-IsBorneOut routed now env deadline s =
      elim (Result-cases (find_route routed env.service s.dynamic_routes s.routes).1) [
        | inl (e, h) ↦ rw (h, send) (e, refl)
        | inr (target, h) ↦
            let view : RpcCallView = record {
              target = target;
              request = env;
              deadline = deadline;
            } in
            elim (Result-cases (preflight now s.rpc_policy view)) [
              | inl (e, g) ↦ rw (h, g, send) (e, refl)
              | inr (effective, g) ↦
                  rw (h, g, send)
                    (transfer-IsBorneOut routed now view effective s.default_egress s.seam_send
                      s.dynamic_routes s.routes s.rpc_policy
                      (find_route-IsRoute routed env.service s.dynamic_routes s.routes target h)
                      (preflight-Permits now s.rpc_policy view effective g))
            ]
      ]
