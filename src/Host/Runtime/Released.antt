-- ===== src/Host/Runtime/Released.antt =====
-- framework/src/host/AppRuntimeState.cc: what a released state answers. Calls go in and out, and the
-- state is published and released, in any order.
use bbt_framework.Prelude.{
  ℕ, ◌≡◌, ◌∙◌, ap, refl, Bool, true, false, List, [], ◌∷◌, none, String, Dict, arith,
}
use bbt_framework.Infra.{Infra, ok, err, runtime_unavailable}
use bbt_framework.Host.Methods.{RpcMethod}
use bbt_framework.Host.Dispatcher.State.{IncomingCallContext, RpcEnvelope, InboundDispatcher}
use bbt_framework.Host.Dispatcher.Enter.{Moment, Outcome, replied, pending}
use bbt_framework.Host.Runtime.{AppRuntimeState, send, publish, release, dispatch}

pub data Call (F I : Type 0) : Type 0 where
  publishes : InboundDispatcher F I → Dict String (List RpcMethod) → Dict String I → Call F I
  releases : Call F I
  sends : ℕ → ℕ → RpcEnvelope → ℕ → Call F I
  dispatches : Moment F I → IncomingCallContext → RpcEnvelope → Call F I

module _ {F I : Type 0} where
  abbrev pub is_publish : Call F I → Bool
  is_publish (publishes _ _ _) = true
  is_publish _ = false

  abbrev pub NoPublish : List (Call F I) → Type 0
  NoPublish [] = Unit {0}
  NoPublish (c ∷ cs) = (is_publish c ≡ false) × NoPublish cs

abbrev pub IsUnavailable : Outcome → Type 0
IsUnavailable (replied (err e)) = e.code ≡ runtime_unavailable
IsUnavailable (replied (ok _)) = ⊥
IsUnavailable (pending _) = ⊥

module _ {F I : Type 0} ⦃infra : Infra⦄ where
  unfoldable pub step : AppRuntimeState F I → Call F I → AppRuntimeState F I
  step s (publishes d t inst) = publish d t inst s
  step s releases = release s
  step s (sends routed now env deadline) = (send routed now env deadline s).0
  step s (dispatches m incoming request) = (dispatch m incoming request s).0

  unfoldable pub run : AppRuntimeState F I → List (Call F I) → AppRuntimeState F I
  unfolding step
  run s [] = s
  run s (c ∷ cs) = run (step s c) cs

  send-dispatcher :
      (routed now : ℕ) (env : RpcEnvelope) (deadline : ℕ) (s : AppRuntimeState F I)
      → (send routed now env deadline s).0.dispatcher ≡ s.dispatcher
  unfolding send
  send-dispatcher routed now env deadline s = ground arith

  dispatch-closed :
      (m : Moment F I) (incoming : IncomingCallContext) (request : RpcEnvelope)
      (s : AppRuntimeState F I)
      → s.dispatcher ≡ none
      → IsUnavailable (dispatch m incoming request s).1 × ((dispatch m incoming request s).0 ≡ s)
  unfolding dispatch
  dispatch-closed m incoming request s h = (simp (h, dispatch) refl, simp (h, dispatch) refl)

  stays_closed :
      (s : AppRuntimeState F I) (cs : List (Call F I))
      → s.dispatcher ≡ none
      → NoPublish cs
      → (run s cs).dispatcher ≡ none
  unfolding run release
  stays_closed s [] h n = h
  stays_closed s (publishes _ _ _ ∷ cs) h (n, ns) = absurd (ground arith)
  stays_closed s (releases ∷ cs) h (n, ns) = stays_closed (release s) cs refl ns
  stays_closed s (sends routed now env deadline ∷ cs) h (n, ns) =
      stays_closed _ cs (ground (arith, send-dispatcher routed now env deadline s)) ns
  stays_closed s (dispatches m incoming request ∷ cs) h (n, ns) =
      stays_closed _ cs (ap (λ t. t.dispatcher) (dispatch-closed m incoming request s h).1 ∙ h) ns

  -- After a release, and until the next publication, whatever calls come in and go out, every
  -- dispatch is answered with `RuntimeUnavailable` and changes nothing.
  pub released_refuses :
      (s : AppRuntimeState F I) (cs : List (Call F I)) (m : Moment F I)
      (incoming : IncomingCallContext) (request : RpcEnvelope)
      → NoPublish cs
      → (let after = run (release s) cs in
          IsUnavailable (dispatch m incoming request after).1
          × ((dispatch m incoming request after).0 ≡ after))
  unfolding release
  released_refuses s cs m incoming request n =
      dispatch-closed m incoming request (run (release s) cs) (stays_closed (release s) cs refl n)
