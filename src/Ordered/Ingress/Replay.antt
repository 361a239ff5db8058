-- ===== src/Ordered/Ingress/Replay.antt =====
-- OrderedIngress.cc: the runs of an ingress by the status of their sequences, and what a client gets
-- that sends a completed request again.
use bbt_framework.Prelude.{
  ℕ, suc, ◌+◌, ◌≤◌, ◌<◌, ◌≡◌, ◌≢◌, refl, sym, subst, ◌∙◌, ◌⊎◌, inl, inr, true, List, [], ◌∷◌, none,
  some, ℕ_discrete, lookup, erase, ltb, u64_max, length, arith, Option-cases,
}
use bbt_framework.Infra.{Infra, Result, ok, err}
use bbt_framework.Ordered.Types.{result_expired}
use bbt_framework.Ordered.Ingress.{
  OrderedIngressRequest, OrderedTerminalReply, Admission, replays, ordered_ingest_error, StreamKey,
  StreamKey_discrete, InFlight, CachedKey, CachedResult, StreamState, OrderedIngress,
}
use bbt_framework.Ordered.Ingress.Admit.{
  request_key, admit_stream, admit, answer_consumed, admission_of,
}
use bbt_framework.Ordered.Ingress.Complete.{
  sanitize, result_of, cache_reply, complete, complete_execute,
}
use bbt_framework.Ordered.Ingress.Once.{
  next_of, Call, admits, completes, step, next_of-step, is_entitled,
}
use bbt_framework.Ordered.Ingress.Once.{next_of-complete, run}
use bbt_framework.Ordered.Ingress.Status.{
  Status, expired, kept, in_flight_of, cached_of, status_of, Move, stays, admitted, answered,
  unkept, forgotten, IsConsistent,
}
use bbt_framework.Ordered.Ingress.Kept.{cache_reply-after}
use bbt_framework.Ordered.Ingress.Refines.{
  erased_here, here_after, consumed-lt, Moves, complete-Moves,
}
use bbt_framework.Ordered.Ingress.Refines.Admitted.{admit-Moves}

-- The 64-bit sequences of all streams have room for so many more requests.
abbrev pub HasRoom : ℕ → OrderedIngress → Type 0
HasRoom n s = (k : StreamKey) → next_of k s + n ≤ u64_max

-- What the calls of a run do to the status of a sequence: one move for each.
pub data Course ⦃infra : Infra⦄ (k : StreamKey) (q : ℕ) : List Call → Status → Status → Type 0 where
  ended : {t : Status} → Course k q [] t t
  goes_on :
      {c : Call} {cs : List Call} {t u v : Status}
      → Move k q c t u
      → Course k q cs u v
      → Course k q (c ∷ cs) t v

module _ ⦃infra : Infra⦄ where
  step-Moves :
      (k : StreamKey) (q : ℕ) (s : OrderedIngress) (c : Call)
      → IsConsistent s
      → next_of k s < u64_max
      → Moves k q c s (step s c)
  unfolding step
  step-Moves k q s (admits r) cons room = admit-Moves k q r s cons room
  step-Moves k q s (completes stale a reply) cons room = complete-Moves k q stale a reply s cons

  pub step-IsConsistent :
      (s : OrderedIngress) (c : Call) → IsConsistent s → HasRoom 1 s → IsConsistent (step s c)
  step-IsConsistent s c cons room =
      λ k q. let m = step-Moves k q s c cons (omega (arith, room k)) in (m.1, m.2)

  step-HasRoom : (n : ℕ) (s : OrderedIngress) (c : Call) → HasRoom (suc n) s → HasRoom n (step s c)
  step-HasRoom n s c room =
      λ k. omega (arith, room k, (next_of-step k s c (omega (arith, room k))).1)

  -- In every run of requests and completions, in any order, that the 64-bit sequences have room for,
  -- each call takes each sequence of each stream one step on the way that its status allows, or leaves
  -- it where it is. From ahead it goes to in progress, in a request of this sequence and with the id
  -- and the digest of that request. From there it goes, in a call that completes this sequence, to
  -- expired or to a kept reply: the reply of that call, as `sanitize` leaves it. A kept reply goes to
  -- expired and never becomes another one.
  pub run_refines :
      (s : OrderedIngress) (cs : List Call) (k : StreamKey) (q : ℕ)
      → IsConsistent s
      → HasRoom (length cs) s
      → Course k q cs (status_of k q s) (status_of k q (run s cs))
  unfolding run
  run_refines s [] k q cons room = ended
  run_refines s (c ∷ cs) k q cons room =
      goes_on (step-Moves k q s c cons (omega (arith, room k))).0 (
        run_refines (step s c) cs k q (step-IsConsistent s c cons (λ j. omega (arith, room j)))
          (step-HasRoom (length cs) s c room))

  -- A kept reply stays the same one until it has expired.
  Remains : CachedResult → Status → Type 0
  Remains c v = (v ≡ kept c) ⊎ (v ≡ expired)

  Move-Remains :
      (k : StreamKey) (q : ℕ) (call : Call) (c : CachedResult) (u v : Status)
      → Move k q call u v
      → Remains c u
      → Remains c v
  unfolding Remains
  Move-Remains k q call c u v stays h = h
  Move-Remains k q call c u v (admitted f own) h = absurd (ground arith)
  Move-Remains k q call c u v (answered f reply own) h = absurd (ground arith)
  Move-Remains k q call c u v (unkept f reply own) h = absurd (ground arith)
  Move-Remains k q call c u v (forgotten d) h = inr refl

  Course-Remains :
      (k : StreamKey) (q : ℕ) (cs : List Call) (c : CachedResult) (u v : Status)
      → Course k q cs u v
      → Remains c u
      → Remains c v
  Course-Remains k q cs c u v ended h = h
  Course-Remains k q cs c u v (goes_on {c = call} {cs = rest} {t = x} {u = w} {v = y} m course) h =
      Course-Remains k q rest c w v course (Move-Remains k q call c u w m h)

  complete-shape :
      (stale : CachedKey → CachedKey) (r : OrderedIngressRequest) (reply : OrderedTerminalReply)
      (s : OrderedIngress) (st : StreamState) (f : InFlight)
      → lookup StreamKey_discrete (request_key r) s.streams ≡ some st
      → lookup ℕ_discrete r.sequence st.in_flight ≡ some f
      → (complete stale (admission_of r) reply s).0
        ≡ cache_reply stale
            (record { stream = request_key r; sequence = r.sequence })
            f
            (sanitize reply)
            (record st { in_flight = erase ℕ_discrete r.sequence st.in_flight })
            s
  unfolding complete complete_execute
  complete-shape stale r reply s st f e found =
      rw (e, complete_execute) (rw (found, complete_execute) refl)

  settled-Remains :
      (k : StreamKey) (q : ℕ) (x : CachedResult) (s t : OrderedIngress)
      → q < next_of k s
      → next_of k t ≡ next_of k s
      → in_flight_of k q t ≡ none
      → (cached_of k q t ≡ none) ⊎ (cached_of k q t ≡ some x)
      → Remains x (status_of k q t)
  unfolding Remains status_of
  settled-Remains k q x s t lt n i (inl gone) =
      let now : ltb q (next_of k t) ≡ true = ground (arith, n, lt) in rw (now, i, gone) (inr refl)
  settled-Remains k q x s t lt n i (inr there) =
      let now : ltb q (next_of k t) ≡ true = ground (arith, n, lt) in rw (now, i, there) (inl refl)

  -- The completion of a request in progress.
  complete-Remains :
      (stale : CachedKey → CachedKey) (r : OrderedIngressRequest) (reply : OrderedTerminalReply)
      (s : OrderedIngress) (f : InFlight)
      → IsConsistent s
      → in_flight_of (request_key r) r.sequence s ≡ some f
      → Remains
          (result_of f (sanitize reply))
          (status_of (request_key r) r.sequence (complete stale (admission_of r) reply s).0)
  unfolding lookup
  complete-Remains stale r reply s f cons before =
      elim (Option-cases (lookup StreamKey_discrete (request_key r) s.streams)) [
        | inl e ↦ absurd (ground (arith, e, before))
        | inr (st, e) ↦
            let k = request_key r in
            let q = r.sequence in
            let key : CachedKey = record { stream = k; sequence = q } in
            let found : lookup ℕ_discrete q st.in_flight ≡ some f = ground (arith, e, before) in
            let erased : StreamState = record st { in_flight = erase ℕ_discrete q st.in_flight } in
            let t = cache_reply stale key f (sanitize reply) erased s in
            let shape : (complete stale (admission_of r) reply s).0 ≡ t =
              complete-shape stale r reply s st f e found in
            let (c, i) =
              cache_reply-after k q stale key f (sanitize reply) erased s ((cons k q).1 f before) in
            subst (λ u. Remains (result_of f (sanitize reply)) (status_of k q u)) (sym shape)
              (settled-Remains k q (result_of f (sanitize reply)) s t
                (consumed-lt k q f s cons before)
                (subst (λ u. next_of k u ≡ next_of k s) shape
                  (next_of-complete k stale (admission_of r) reply s))
                (i ∙ erased_here k q key st s refl)
                (here_after k q key (result_of f (sanitize reply)) s t refl c))
      ]

  abbrev pub IsReplayOrExpired :
      OrderedIngressRequest → OrderedTerminalReply → Result Admission → Type 0
  IsReplayOrExpired r reply decision =
      (decision ≡ ok (record (admission_of r) { kind = replays; replay = reply }))
      ⊎ (decision
          ≡ err (
              ordered_ingest_error result_expired
                "ordered result of this sequence was evicted from the cache"))

  -- What a request gets whose sequence is consumed and not in progress.
  admit-Remains :
      (r : OrderedIngressRequest) (s : OrderedIngress) (f : InFlight) (reply : OrderedTerminalReply)
      → is_entitled r s ≡ true
      → r.sequence ≢ 0
      → f.request_id ≡ r.request_id
      → f.digest ≡ r.request_digest
      → Remains (result_of f reply) (status_of (request_key r) r.sequence s)
      → IsReplayOrExpired r reply (admit r s).1
  unfolding Remains status_of admit admit_stream answer_consumed
  admit-Remains r s f reply h nz id digest (inl e) = inl (ground arith)
  admit-Remains r s f reply h nz id digest (inr e) = inr (ground arith)

  -- A request that is in progress is completed. After that, and after any further requests and
  -- completions, the same request, as long as it is entitled, gets the reply of that completion again
  -- or learns that it has been evicted; it is neither executed again nor answered otherwise.
  pub replayed_or_expired :
      (stale : CachedKey → CachedKey) (r : OrderedIngressRequest) (reply : OrderedTerminalReply)
      (s : OrderedIngress) (cs : List Call)
      → IsConsistent s
      → HasRoom (suc (length cs)) s
      → in_flight_of (request_key r) r.sequence s
        ≡ some (record { request_id = r.request_id; digest = r.request_digest })
      → r.sequence ≢ 0
      → is_entitled r (run (complete stale (admission_of r) reply s).0 cs) ≡ true
      → IsReplayOrExpired r
          (sanitize reply)
          (admit r (run (complete stale (admission_of r) reply s).0 cs)).1
  unfolding step
  replayed_or_expired stale r reply s cs cons room before nz entitled =
      let f : InFlight = record { request_id = r.request_id; digest = r.request_digest } in
      let c : Call = completes stale (admission_of r) reply in
      let after = (complete stale (admission_of r) reply s).0 in
      let course =
        run_refines after cs (request_key r) r.sequence
          (step-IsConsistent s c cons (λ j. omega (arith, room j)))
          (step-HasRoom (length cs) s c room) in
      admit-Remains r (run after cs) f (sanitize reply) entitled nz refl refl (
        Course-Remains (request_key r) r.sequence cs (result_of f (sanitize reply)) _ _ course
          (complete-Remains stale r reply s f cons before))
