-- ===== src/Host/Dispatcher/Drained.antt =====
-- framework/src/host/InboundDispatcher.cc: every call in flight can end, and then no place is taken.
use bbt_framework.Prelude.{
  ◌≡◌, ◌≢◌, refl, subst, List, [], ◌∷◌, ◌++◌, Option, none, some, String, String_discrete, lookup,
  lookup-insert, arith, All, Option-cases, inl, inr, length, ◌≤◌, u64_max, if_both, leb,
}
use bbt_framework.Infra.{Infra, Result, Result-cases, err}
use bbt_framework.Actor.Registry.{ActorRegistry}
use bbt_framework.Host.Dispatcher.State.{
  IncomingCallContext, RpcEnvelope, PerService, InboundDispatcher, Pending, Target, resolve,
  resolve-IsTarget, give_back, take_place, Stage, refused,
}
use bbt_framework.Host.Dispatcher.Enter.{
  Moment, Progress, replies, stays, Left, Outcome, replied, pending, enter, put, settle, start,
  pending_of,
}
use bbt_framework.Host.Dispatcher.Leave.{Ending, leave, finish_stage}
use bbt_framework.Host.Dispatcher.System.{
  System, Step, enters, leaves, runs_on, Reach, begin, later, Fresh, joined, in_service,
}
use bbt_framework.Host.Dispatcher.Counts.{reached-Counted, AllCounted, leave-counted}

module _ {F I : Type 0} ⦃infra : Infra⦄ where
  -- The service is one of the dispatcher.
  abbrev Has : InboundDispatcher F I → String → Type 0
  Has d name = lookup String_discrete name d.services ≢ none

  Has-put :
      (name other : String) (svc : PerService I) (registry : ActorRegistry F I)
      (d : InboundDispatcher F I)
      → Has d other
      → Has (put name svc registry d) other
  Has-put name other svc registry d h e =
      ground (arith, h, lookup-insert String_discrete name other svc d.services)

  abbrev AllFound : InboundDispatcher F I → List Pending → Type 0
  AllFound d ps = All (λ p. Has d p.request.service) ps

  AllFound-put :
      (ps : List Pending) (name : String) (svc : PerService I) (registry : ActorRegistry F I)
      (d : InboundDispatcher F I)
      → AllFound d ps
      → AllFound (put name svc registry d) ps
  AllFound-put [] name svc registry d h = tt
  AllFound-put (p ∷ ps) name svc registry d (h, hs) =
      (Has-put name p.request.service svc registry d h, AllFound-put ps name svc registry d hs)

  AllFound-drop :
      (before after : List Pending) (p : Pending) (d : InboundDispatcher F I)
      → AllFound d (before ++ p ∷ after)
      → AllFound d (before ++ after)
  AllFound-drop [] after p d (h, hs) = hs
  AllFound-drop (q ∷ before) after p d (h, hs) = (h, AllFound-drop before after p d hs)

  settle_cases {ℓ} :
      (P : InboundDispatcher F I × Outcome → Type ℓ) (incoming : IncomingCallContext)
      (request : RpcEnvelope) (target : Target I) (left : Left F I) (d : InboundDispatcher F I)
      → ((svc : PerService I) (registry : ActorRegistry F I) (r : Result RpcEnvelope)
          → P (put request.service svc registry d, replied r))
      → ((svc : PerService I) (registry : ActorRegistry F I) (stage : Stage)
          → P (
            put request.service svc registry d,
            pending (pending_of incoming request target stage),
          ))
      → P (settle incoming request target left d)
  unfolding settle
  settle_cases P incoming request target left d done stayed = by_progress left.progress refl
    where
      by_progress : (pr : Progress) → left.progress ≡ pr → P (settle incoming request target left d)
      by_progress (replies r) e = rw (e, settle) (done _ _ r)
      by_progress (stays stage) e = rw (e, settle) (stayed _ _ stage)

  -- A call is answered before it finds its service, or writes its own service only.
  enter_cases {ℓ} :
      (P : InboundDispatcher F I × Outcome → Type ℓ) (m : Moment F I)
      (incoming : IncomingCallContext) (request : RpcEnvelope) (d : InboundDispatcher F I)
      → ((r : Result RpcEnvelope) → P (d, replied r))
      → ((svc : PerService I) (registry : ActorRegistry F I) (r : Result RpcEnvelope)
          → P (put request.service svc registry d, replied r))
      → ((target : Target I) (svc : PerService I) (registry : ActorRegistry F I) (stage : Stage)
          → lookup String_discrete request.service d.services ≡ some target.service
          → P (
            put request.service svc registry d,
            pending (pending_of incoming request target stage),
          ))
      → P (enter m incoming request d)
  unfolding enter
  enter_cases P m incoming request d early done stayed = elim (Result-cases (resolve request d)) [
    | inl (e, h) ↦ rw (h, enter) (early (err e))
    | inr (target, h) ↦
        let there = (resolve-IsTarget request d target h).0 in
        rw (h, enter)
          (if_both {A = InboundDispatcher F I × Outcome} P
            (leb target.service.entry.options.max_inflight target.service.inflight) _ _
            (λ _. stayed target (take_place target.service) d.registry refused there)
            (λ _.
              settle_cases P incoming request target
                (start m incoming request target (take_place target.service) d.registry) d done
                (λ svc registry stage. stayed target svc registry stage there)))
  ]

  enter-AllFound :
      (m : Moment F I) (incoming : IncomingCallContext) (request : RpcEnvelope)
      (d : InboundDispatcher F I) (ps : List Pending)
      → AllFound d ps
      → AllFound (enter m incoming request d).0 (joined (enter m incoming request d).1 ps)
  enter-AllFound m incoming request d ps h =
      enter_cases (λ out. AllFound out.0 (joined out.1 ps)) m incoming request d (λ r. h)
        (λ svc registry r. AllFound-put ps request.service svc registry d h)
        (λ target svc registry stage there. (
          Has-put request.service request.service svc registry d (λ e. ground (arith, e, there)),
          AllFound-put ps request.service svc registry d h,
        ))

  -- The result of the end of a call whose service is there.
  leave_total :
      (ending : Ending) (p : Pending) (d : InboundDispatcher F I)
      → Has d p.request.service
      → (svc : PerService I) × (registry : ActorRegistry F I) × (reply : Result RpcEnvelope)
        × (leave ending p d ≡ some (put p.request.service svc registry d, reply))
  unfolding leave
  leave_total ending p d h =
      elim (Option-cases (lookup String_discrete p.request.service d.services)) [
        | inl e ↦ absurd (h e)
        | inr (svc, e) ↦
            let out = finish_stage ending p p.stage svc in
            (give_back out.0, d.registry, out.1, rw (e, leave) refl)
      ]

  AllFound-at :
      (before after : List Pending) (p : Pending) (d : InboundDispatcher F I)
      → AllFound d (before ++ p ∷ after)
      → Has d p.request.service
  AllFound-at [] after p d (h, hs) = h
  AllFound-at (q ∷ before) after p d (h, hs) = AllFound-at before after p d hs

  leave-AllFound :
      (ending : Ending) (p : Pending) (d after : InboundDispatcher F I) (reply : Result RpcEnvelope)
      (ps : List Pending)
      → Has d p.request.service
      → leave ending p d ≡ some (after, reply)
      → AllFound d ps
      → AllFound after ps
  leave-AllFound ending p d after reply ps has h found =
      let (svc, registry, r, e) = leave_total ending p d has in
      let same : put p.request.service svc registry d ≡ after = ground (arith, e, h) in
      subst (λ d. AllFound d ps) same (AllFound-put ps p.request.service svc registry d found)

  Step-found :
      (s t : System F I) → AllFound s.dispatcher s.calls → Step s t → AllFound t.dispatcher t.calls
  Step-found s t h (enters m incoming request r) =
      enter-AllFound m incoming request s.dispatcher s.calls h
  Step-found s t h (leaves ending before after p d reply e l) =
      let found = subst (λ ps. AllFound s.dispatcher ps) e h in
      leave-AllFound ending p s.dispatcher d reply (before ++ after)
        (AllFound-at before after p s.dispatcher found) l
        (AllFound-drop before after p s.dispatcher found)
  Step-found s t h (runs_on name svc changed registry there n o) =
      AllFound-put s.calls name changed registry s.dispatcher h

  all_found :
      (d : InboundDispatcher F I) (s : System F I) → Reach d s → AllFound s.dispatcher s.calls
  all_found d s begin = tt
  all_found d t (later {s} r st) = Step-found s t (all_found d s r) st

  -- All calls end, one after the other.
  unfoldable pub end_all :
      (Pending → Ending) → List Pending → InboundDispatcher F I → Option (InboundDispatcher F I)
  end_all ending [] d = some d
  end_all ending (p ∷ ps) d = elim (leave (ending p) p d) [
    | none ↦ none
    | some (after, _) ↦ end_all ending ps after
  ]

  abbrev pub Idle : InboundDispatcher F I → Type 0
  Idle d =
      (name : String) (svc : PerService I)
      → lookup String_discrete name d.services ≡ some svc
      → svc.inflight ≡ 0

  end_all_from :
      (ending : Pending → Ending) (ps : List Pending) (d : InboundDispatcher F I)
      → length ps ≤ u64_max
      → AllFound d ps
      → AllCounted d ps
      → (after : InboundDispatcher F I) × (end_all ending ps d ≡ some after) × Idle after
  unfolding end_all in_service
  end_all_from ending [] d room found all = (d, refl, λ name svc there. (all name svc there).0)
  end_all_from ending (p ∷ ps) d room (has, found) all =
      let (svc, registry, r, e) = leave_total (ending p) p d has in
      let next = put p.request.service svc registry d in
      let (after, ends, idle) =
        end_all_from ending ps next (omega (arith, room))
          (leave-AllFound (ending p) p d next r ps has e found)
          (leave-counted (ending p) p d next r ps room all e) in
      (after, rw (e, end_all) ends, idle)

  -- In every state that the calls of a dispatcher can reach, the calls in flight can end in any way,
  -- and when all have, no service counts a call: no path of `Dispatch` keeps a place.
  pub calls_end :
      (ending : Pending → Ending) (d : InboundDispatcher F I) (s : System F I)
      → Fresh d
      → Reach d s
      → (after : InboundDispatcher F I) × (end_all ending s.calls s.dispatcher ≡ some after)
        × Idle after
  calls_end ending d s fresh r =
      let (room, all) = reached-Counted d s fresh r in
      end_all_from ending s.calls s.dispatcher room (all_found d s r) all
