-- ===== src/Host/Dispatcher/Counts.antt =====
-- framework/src/host/InboundDispatcher.cc: what the counter of a service counts.
use bbt_framework.Host.Dispatcher.Orderly.{IsOrderly, start-IsOrderly, finish_stage-Keeps}
use bbt_framework.Prelude.{
  ℕ, suc, ◌+◌, ◌<◌, ◌≤◌, ◌≡◌, ◌≢◌, refl, sym, ◌∙◌, subst, ap, List, [], ◌∷◌, ◌++◌, some, String,
  String_discrete, lookup, lookup-insert, lookup-insert_self, length, length-append, if◌then◌else◌,
  arith, u64_max, add64, sub64, leb, Option-cases, inl, inr, if_both,
}
use bbt_framework.Infra.{Infra, Result, Result-cases}
use bbt_framework.Actor.Registry.{ActorRegistry}
use bbt_framework.Host.Dispatcher.State.{
  IncomingCallContext, RpcEnvelope, PerService, InboundDispatcher, Pending, refused, running,
  waiting, Target, resolve-IsTarget, take_place, give_back, resolve,
}
use bbt_framework.Host.Dispatcher.Enter.{
  Moment, Progress, replies, stays, Left, Outcome, replied, pending, enter, put, settle, pending_of,
}
use bbt_framework.Host.Dispatcher.Leave.{Ending, leave, finish_stage}
use bbt_framework.Host.Dispatcher.System.{
  System, Step, enters, leaves, runs_on, Reach, begin, later, Fresh, Counted, in_service,
  holds_place, was_admitted, admitted_to, is_refused, joined,
}

-- Counting the calls.
in_service-append :
    (name : String) (before after : List Pending) (p : Pending)
    → in_service name (before ++ p ∷ after) ≡ in_service name (p ∷ before ++ after)
unfolding in_service
in_service-append name [] after p = refl
in_service-append name (q ∷ before) after p = omega (arith, in_service-append name before after p)

admitted_to-append :
    (name : String) (before after : List Pending) (p : Pending)
    → admitted_to name (before ++ p ∷ after) ≡ admitted_to name (p ∷ before ++ after)
unfolding admitted_to
admitted_to-append name [] after p = refl
admitted_to-append name (q ∷ before) after p = omega (arith, admitted_to-append name before after p)

place-le :
    (name : String) (p : Pending)
    → (was_admitted name p ≤ holds_place name p) × (holds_place name p ≤ 1)
unfolding holds_place was_admitted
place-le name p = ground arith

admitted_to-le-in_service :
    (name : String) (ps : List Pending) → admitted_to name ps ≤ in_service name ps
unfolding in_service admitted_to
admitted_to-le-in_service name [] = omega arith
admitted_to-le-in_service name (p ∷ ps) =
    omega (arith, admitted_to-le-in_service name ps, (place-le name p).0)

in_service-le-length : (name : String) (ps : List Pending) → in_service name ps ≤ length ps
unfolding in_service
in_service-le-length name [] = omega arith
in_service-le-length name (p ∷ ps) =
    omega (arith, in_service-le-length name ps, (place-le name p).1)

-- A call that is counted in its own service changes nothing for the others.
elsewhere :
    (p : Pending) (ps : List Pending) (other : String)
    → other ≢ p.request.service
    → (in_service other (p ∷ ps) ≡ in_service other ps)
      × (admitted_to other (p ∷ ps) ≡ admitted_to other ps)
unfolding in_service admitted_to holds_place was_admitted
elsewhere p ps other ne = ground arith

here :
    (p : Pending) (ps : List Pending)
    → (in_service p.request.service (p ∷ ps) ≡ suc (in_service p.request.service ps))
      × (admitted_to p.request.service (p ∷ ps)
          ≡ (if is_refused p.stage then 0 else 1) + admitted_to p.request.service ps)
unfolding in_service admitted_to holds_place was_admitted
here p ps = ground arith

add64_room : (n : ℕ) → n < u64_max → add64 n 1 ≡ suc n
add64_room n h = omega arith

sub64_back : (n : ℕ) → suc n ≤ u64_max → sub64 (suc n) 1 ≡ n
sub64_back n h = omega arith

joined-le :
    (out : Outcome) (ps : List Pending) → length ps < u64_max → length (joined out ps) ≤ u64_max
joined-le (replied r) ps h = omega arith
joined-le (pending p) ps h = omega arith

length-split :
    (before after : List Pending) (p : Pending)
    → length (before ++ p ∷ after) ≡ suc (length (before ++ after))
length-split before after p =
    omega (arith, length-append before (p ∷ after), length-append before after)

module _ {I : Type 0} where
  abbrev pub ServiceCounted : String → PerService I → List Pending → Type 0
  ServiceCounted name svc ps =
      (svc.inflight ≡ in_service name ps) × (admitted_to name ps ≤ svc.entry.options.max_inflight)

module _ {F I : Type 0} ⦃infra : Infra⦄ where
  abbrev pub AllCounted : InboundDispatcher F I → List Pending → Type 0
  AllCounted d ps =
      (name : String) (svc : PerService I)
      → lookup String_discrete name d.services ≡ some svc
      → ServiceCounted name svc ps

  -- A write of one service.
  counted-put :
      (name : String) (svc : PerService I) (registry : ActorRegistry F I)
      (d : InboundDispatcher F I) (ps qs : List Pending)
      → ServiceCounted name svc qs
      → ((other : String)
          → other ≢ name
          → (in_service other qs ≡ in_service other ps)
            × (admitted_to other qs ≡ admitted_to other ps))
      → AllCounted d ps
      → AllCounted (put name svc registry d) qs
  counted-put name svc registry d ps qs own others all other x h =
      elim (String_discrete name other) [
        | yes e ↦
            let same : svc ≡ x =
              ground (arith, h, lookup-insert_self String_discrete name svc d.services) in
            subst (λ n. ServiceCounted n x qs) e (subst (λ v. ServiceCounted name v qs) same own)
        | no ne ↦
            let there : lookup String_discrete other d.services ≡ some x =
              ground (arith, lookup-insert String_discrete name other svc d.services) in
            let (n, m) = all other x there in
            let (en, em) = others other (λ e. ne (sym e)) in (n ∙ sym en, omega (arith, m, em))
      ]

  -- A call joins those of its service.
  counted-join :
      (p : Pending) (svc : PerService I) (registry : ActorRegistry F I) (d : InboundDispatcher F I)
      (ps : List Pending)
      → svc.inflight ≡ suc (in_service p.request.service ps)
      → (if is_refused p.stage then 0 else 1) + admitted_to p.request.service ps
        ≤ svc.entry.options.max_inflight
      → AllCounted d ps
      → AllCounted (put p.request.service svc registry d) (p ∷ ps)
  counted-join p svc registry d ps n m all =
      counted-put p.request.service svc registry d ps (p ∷ ps)
        (n ∙ sym (here p ps).0, omega (arith, m, (here p ps).1)) (elsewhere p ps) all

  -- What is left after the first part of a call is counted.
  settle-counted :
      (incoming : IncomingCallContext) (request : RpcEnvelope) (target : Target I) (left : Left F I)
      (d : InboundDispatcher F I) (ps : List Pending)
      → length ps < u64_max
      → AllCounted d ps
      → lookup String_discrete request.service d.services ≡ some target.service
      → target.service.inflight < target.service.entry.options.max_inflight
      → IsOrderly (take_place target.service) left
      → AllCounted
          (settle incoming request target left d).0
          (joined (settle incoming request target left d).1 ps)
  unfolding settle
  settle-counted incoming request target left d ps room all there free orderly =
      by_progress left.progress refl
    where
      own :
          (target.service.inflight ≡ in_service request.service ps)
          × (admitted_to request.service ps ≤ target.service.entry.options.max_inflight)
      own = all request.service target.service there

      counted : left.service.inflight ≡ suc (in_service request.service ps)
      counted =
          orderly.0.0
          ∙ add64_room target.service.inflight
              (omega (arith, own, room, in_service-le-length request.service ps))
          ∙ ap suc own.0

      limit : left.service.entry.options.max_inflight ≡ target.service.entry.options.max_inflight
      limit = ap (λ o. o.max_inflight) orderly.0.1

      free_place : 1 + admitted_to request.service ps ≤ left.service.entry.options.max_inflight
      free_place = omega (arith, own, free, limit, admitted_to-le-in_service request.service ps)

      by_progress :
          (pr : Progress)
          → left.progress ≡ pr
          → AllCounted
              (settle incoming request target left d).0
              (joined (settle incoming request target left d).1 ps)
      by_progress (replies reply) e =
          rw (e, settle)
            (counted-put request.service (give_back left.service) left.registry d ps ps
              (
                ap (λ n. sub64 n 1) counted
                    ∙ sub64_back _ (omega (arith, room, in_service-le-length request.service ps)),
                omega (arith, own, limit),
              )
              (λ _ _. (refl, refl)) all)
      by_progress (stays refused) e = absurd (orderly.1 e)
      by_progress (stays running) e =
          rw (e, settle)
            (counted-join (pending_of incoming request target running) left.service left.registry d
              ps counted free_place all)
      by_progress (stays (waiting admission slot)) e =
          rw (e, settle)
            (counted-join (pending_of incoming request target (waiting admission slot)) left.service
              left.registry d ps counted free_place all)

  enter-counted :
      (m : Moment F I) (incoming : IncomingCallContext) (request : RpcEnvelope)
      (d : InboundDispatcher F I) (ps : List Pending)
      → length ps < u64_max
      → AllCounted d ps
      → AllCounted (enter m incoming request d).0 (joined (enter m incoming request d).1 ps)
  unfolding enter
  enter-counted m incoming request d ps room all = elim (Result-cases (resolve request d)) [
    | inl (e, h) ↦ rw (h, enter) all
    | inr (target, h) ↦
        let there = (resolve-IsTarget request d target h).0 in
        let (n, below) = all request.service target.service there in
        rw (h, enter)
          (if_both {A = InboundDispatcher F I × Outcome} (λ out. AllCounted out.0 (joined out.1 ps))
            (leb target.service.entry.options.max_inflight target.service.inflight) _ _
            (λ _.
              counted-join (pending_of incoming request target refused) (take_place target.service)
                d.registry d ps
                (add64_room _ (omega (arith, n, room, in_service-le-length request.service ps))
                  ∙ ap suc n)
                (omega (arith, below)) all)
            (λ free.
              settle-counted incoming request target _ d ps room all there (ground arith)
                (start-IsOrderly m incoming request target (take_place target.service) d.registry)))
  ]

  pub leave-counted :
      (ending : Ending) (p : Pending) (d after : InboundDispatcher F I) (reply : Result RpcEnvelope)
      (ps : List Pending)
      → length (p ∷ ps) ≤ u64_max
      → AllCounted d (p ∷ ps)
      → leave ending p d ≡ some (after, reply)
      → AllCounted after ps
  unfolding leave
  leave-counted ending p d after reply ps room all h =
      elim (Option-cases (lookup String_discrete p.request.service d.services)) [
        | inl e ↦ absurd (ground arith)
        | inr (svc, e) ↦
            let (kept, options) = finish_stage-Keeps ending p p.stage svc in
            let (n, m) = all p.request.service svc e in
            let same : put p.request.service (give_back (finish_stage ending p p.stage svc).0)
                  d.registry d
                ≡ after =
              ground arith in
            subst (λ d. AllCounted d ps) same
              (counted-put p.request.service (give_back (finish_stage ending p p.stage svc).0)
                d.registry d (p ∷ ps) ps
                (
                  ap (λ n. sub64 n 1) (kept ∙ n ∙ (here p ps).0)
                      ∙ sub64_back _
                          (omega (arith, room, in_service-le-length p.request.service ps)),
                  omega (arith, m, (here p ps).1, ap (λ o. o.max_inflight) options),
                )
                (λ other ne. (sym (elsewhere p ps other ne).0, sym (elsewhere p ps other ne).1))
                all)
      ]

  Step-Counted : (s t : System F I) → Counted s → Step s t → Counted t
  Step-Counted s t (room, all) (enters m incoming request r) = (
    joined-le (enter m incoming request s.dispatcher).1 s.calls r,
    enter-counted m incoming request s.dispatcher s.calls r all,
  )
  Step-Counted s t (room, all) (leaves ending before after p d reply e h) =
      let same = length-split before after p in
      let room_before : length (before ++ p ∷ after) ≤ u64_max =
        subst (λ ps. length ps ≤ u64_max) e room in
      (
        omega (arith, same, room_before),
        leave-counted ending p s.dispatcher d reply (before ++ after)
            (omega (arith, same, room_before))
            (λ name svc there.
              let (n, m) = all name svc there in
              (
                n ∙ ap (in_service name) e ∙ in_service-append name before after p,
                omega (arith, m, ap (admitted_to name) e, admitted_to-append name before after p),
              ))
            h,
      )
  Step-Counted s t (room, all) (runs_on name svc changed registry there n o) = (
    room,
    counted-put name changed registry s.dispatcher s.calls s.calls
        (
          n ∙ (all name svc there).0,
          omega (arith, (all name svc there).1, ap (λ o. o.max_inflight) o),
        )
        (λ _ _. (refl, refl)) all,
  )

  pub reached-Counted :
      (d : InboundDispatcher F I) (s : System F I) → Fresh d → Reach d s → Counted s
  unfolding in_service admitted_to
  reached-Counted d s fresh begin =
      (omega arith, λ name svc there. (fresh name svc there, omega arith))
  reached-Counted d t fresh (later {s} r st) = Step-Counted s t (reached-Counted d s fresh r) st

  -- Whatever calls come, are suspended and end in whatever order, and whatever else the process does
  -- to the services: the counter of each service is the number of its calls in flight, those about to
  -- be refused included, and at most `max_inflight` calls of it are past the check.
  pub places_counted :
      (d : InboundDispatcher F I) (s : System F I) (name : String) (svc : PerService I)
      → Fresh d
      → Reach d s
      → lookup String_discrete name s.dispatcher.services ≡ some svc
      → (svc.inflight ≡ in_service name s.calls)
        × (admitted_to name s.calls ≤ svc.entry.options.max_inflight)
  places_counted d s name svc fresh r there = (reached-Counted d s fresh r).1 name svc there
