-- ===== src/Ordered/Ingress/Refines.antt =====
-- OrderedIngress.cc: what a completion makes of the status of each sequence.
pub mod Admitted
use bbt_framework.Prelude.{
  ℕ, ◌+◌, ◌≤◌, ◌<◌, ◌≡◌, ◌≢◌, refl, sym, ap, subst, ◌∙◌, ◌⊎◌, inl, inr, Bool, true, false, ◌||◌,
  not, Option, none, some, ite, ℕ_discrete, dec_lt, lookup, insert, lookup-emplace, erase,
  lookup-erase, ltb, u64_max, arith, if◌then◌else◌, if_both, is_empty, ◌==◌,
}
use bbt_framework.Infra.{Infra, Result}
use bbt_framework.Ordered.Ingress.{
  OrderedIngressRequest, OrderedTerminalReply, Admission, StreamKey, StreamKey_discrete, InFlight,
  CachedKey, CachedKey_discrete, CachedResult, StreamState, OrderedIngress,
}
use bbt_framework.Ordered.Ingress.Grants.{or_fresh}
use bbt_framework.Ordered.Ingress.Admit.{authorized, request_key, admit_stream, admit, consume}
use bbt_framework.Ordered.Ingress.Complete.{
  sanitize, result_of, cache_reply, complete, complete_cases, admission_key,
}
use bbt_framework.Ordered.Ingress.Once.{next_of, Call, completes}
use bbt_framework.Ordered.Ingress.Once.{next_of-complete, next_of-write}
use bbt_framework.Ordered.Ingress.Status.{
  ahead, in_progress_of, in_flight_of, cached_of, consumed_status, status_of, IsCompletion, Move,
  stays, answered, unkept, forgotten, IsConsistent,
}
use bbt_framework.Ordered.Ingress.Kept.{Shrinks, CachedAfter, cache_reply-after, in_flight_of-write}

-- The streams and the cache at the completed sequence, and at the others.
pub erased_here :
    (k : StreamKey) (q : ℕ) (key : CachedKey) (st : StreamState) (s : OrderedIngress)
    → key ≡ record { stream = k; sequence = q }
    → ite
        (StreamKey_discrete key.stream k)
        (lookup ℕ_discrete q (erase ℕ_discrete key.sequence st.in_flight))
        (in_flight_of k q s)
      ≡ none
erased_here k q key st s e = ground (
  arith,
  ap (λ c. c.stream) e,
  ap (λ c. c.sequence) e,
  lookup-erase ℕ_discrete key.sequence q st.in_flight,
)

erased_elsewhere :
    (k : StreamKey) (q : ℕ) (key : CachedKey) (st : StreamState) (s : OrderedIngress)
    → lookup StreamKey_discrete key.stream s.streams ≡ some st
    → key ≢ record { stream = k; sequence = q }
    → ite
        (StreamKey_discrete key.stream k)
        (lookup ℕ_discrete q (erase ℕ_discrete key.sequence st.in_flight))
        (in_flight_of k q s)
      ≡ in_flight_of k q s
erased_elsewhere k q key st s there ne = elim (StreamKey_discrete key.stream k) [
  | yes es ↦ elim (ℕ_discrete key.sequence q) [
    | yes eq ↦ absurd (ne (λ i. record { stream = es i; sequence = eq i }))
    | no other ↦
        let found : lookup StreamKey_discrete k s.streams ≡ some st =
          subst (λ j. lookup StreamKey_discrete j s.streams ≡ some st) es there in
        ground (arith, es, found, other, lookup-erase ℕ_discrete key.sequence q st.in_flight)
  ]
  | no other ↦ ground (arith, other)
]

pub here_after :
    (k : StreamKey) (q : ℕ) (key : CachedKey) (r : CachedResult) (s t : OrderedIngress)
    → key ≡ record { stream = k; sequence = q }
    → CachedAfter k q key r s t
    → (cached_of k q t ≡ none) ⊎ (cached_of k q t ≡ some r)
here_after k q key r s t e (inl gone) = inl gone
here_after k q key r s t e (inr g) = inr (g ∙ ground (arith, e))

elsewhere_after :
    (k : StreamKey) (q : ℕ) (key : CachedKey) (r : CachedResult) (s t : OrderedIngress)
    → key ≢ record { stream = k; sequence = q }
    → CachedAfter k q key r s t
    → Shrinks k q s t
elsewhere_after k q key r s t ne (inl gone) = inl gone
elsewhere_after k q key r s t ne (inr g) = inr (g ∙ ground (arith, ne))

module _ ⦃infra : Infra⦄ where
  shrink-Move :
      (k : StreamKey) (q : ℕ) (call : Call) (b : Bool) (f : Option InFlight)
      (c d : Option CachedResult)
      → (d ≡ none) ⊎ (d ≡ c)
      → Move k q call
          (if b then consumed_status f c else ahead)
          (if b then consumed_status f d else ahead)
  shrink-Move k q call false f c d h = stays
  shrink-Move k q call true (some f) c d h = stays
  shrink-Move k q call true none c d (inr e) = rw e stays
  shrink-Move k q call true none none d (inl e) = rw e stays
  shrink-Move k q call true none (some c) d (inl e) = rw e (forgotten c)

  -- Where nothing but the cache changes for a sequence.
  kept-Move :
      (k : StreamKey) (q : ℕ) (call : Call) (s t : OrderedIngress)
      → ltb q (next_of k t) ≡ ltb q (next_of k s)
      → in_flight_of k q t ≡ in_flight_of k q s
      → Shrinks k q s t
      → Move k q call (status_of k q s) (status_of k q t)
  unfolding status_of
  kept-Move k q call s t n f c =
      rw (n, f)
        (shrink-Move k q call (ltb q (next_of k s)) (in_flight_of k q s) (cached_of k q s)
          (cached_of k q t) c)

  -- What becomes of one sequence, with what it has to meet afterwards.
  abbrev pub Moves : StreamKey → ℕ → Call → OrderedIngress → OrderedIngress → Type 0
  Moves k q call s t =
      Move k q call (status_of k q s) (status_of k q t)
      × (next_of k t ≤ q → (in_flight_of k q t ≡ none) × (cached_of k q t ≡ none))
      × ((f : InFlight) → in_flight_of k q t ≡ some f → cached_of k q t ≡ none)

  pub kept-Moves :
      (k : StreamKey) (q : ℕ) (call : Call) (s t : OrderedIngress)
      → IsConsistent s
      → ltb q (next_of k t) ≡ ltb q (next_of k s)
      → in_flight_of k q t ≡ in_flight_of k q s
      → Shrinks k q s t
      → Moves k q call s t
  kept-Moves k q call s t cons n f c = (
    kept-Move k q call s t n f c,
    λ le.
        let (none_in, none_kept) = (cons k q).0 (ground (arith, le, n)) in
        (f ∙ none_in, stays_none none_kept c),
    λ x e. stays_none ((cons k q).1 x (sym f ∙ e)) c,
  )
    where
      stays_none : cached_of k q s ≡ none → Shrinks k q s t → cached_of k q t ≡ none
      stays_none h (inl gone) = gone
      stays_none h (inr same) = same ∙ h

  pub consumed-lt :
      (k : StreamKey) (q : ℕ) (f : InFlight) (s : OrderedIngress)
      → IsConsistent s
      → in_flight_of k q s ≡ some f
      → q < next_of k s
  consumed-lt k q f s cons before = elim (dec_lt q (next_of k s)) [
    | yes lt ↦ lt
    | no ge ↦
        let gone = ((cons k q).0 (omega (arith, ge))).0 in absurd (ground (arith, gone, before))
  ]

  completed-Move :
      (k : StreamKey) (q : ℕ) (call : Call) (f : InFlight) (reply : OrderedTerminalReply)
      (d : Option CachedResult)
      → IsCompletion k q call reply
      → (d ≡ none) ⊎ (d ≡ some (result_of f (sanitize reply)))
      → Move k q call (in_progress_of f) (consumed_status none d)
  completed-Move k q call f reply d own (inl e) = rw e (unkept f reply own)
  completed-Move k q call f reply d own (inr e) = rw e (answered f reply own)

  -- The sequence whose request is completed.
  pub completed-Moves :
      (k : StreamKey) (q : ℕ) (call : Call) (f : InFlight) (reply : OrderedTerminalReply)
      (s t : OrderedIngress)
      → IsCompletion k q call reply
      → IsConsistent s
      → next_of k t ≡ next_of k s
      → in_flight_of k q s ≡ some f
      → in_flight_of k q t ≡ none
      → (cached_of k q t ≡ none) ⊎ (cached_of k q t ≡ some (result_of f (sanitize reply)))
      → Moves k q call s t
  unfolding status_of
  completed-Moves k q call f reply s t own cons n before after c =
      let consumed : q < next_of k s = consumed-lt k q f s cons before in
      let now : ltb q (next_of k s) ≡ true = ground arith in
      (
        rw (n, now, before, after) (completed-Move k q call f reply (cached_of k q t) own c),
        λ le. absurd (omega (arith, le, n, consumed)),
        λ x e. absurd (ground (arith, e, after)),
      )

  pub cached-Moves :
      (k : StreamKey) (q : ℕ) (call : Call) (stale : CachedKey → CachedKey) (key : CachedKey)
      (f : InFlight) (reply : OrderedTerminalReply) (st : StreamState) (s : OrderedIngress)
      → (key ≡ record { stream = k; sequence = q } → IsCompletion k q call reply)
      → IsConsistent s
      → lookup StreamKey_discrete key.stream s.streams ≡ some st
      → lookup ℕ_discrete key.sequence st.in_flight ≡ some f
      → (let t =
            cache_reply stale key f
              (sanitize reply)
              (record st { in_flight = erase ℕ_discrete key.sequence st.in_flight })
              s in
          next_of k t ≡ next_of k s → Moves k q call s t)
  cached-Moves k q call stale key f reply st s own cons there found n =
      let erased : StreamState = record st {
        in_flight = erase ℕ_discrete key.sequence st.in_flight;
      } in
      let t = cache_reply stale key f (sanitize reply) erased s in
      let before : in_flight_of key.stream key.sequence s ≡ some f = ground (arith, there, found) in
      let (c, i) =
        cache_reply-after k q stale key f (sanitize reply) erased s
          ((cons key.stream key.sequence).1 f before) in
      elim (CachedKey_discrete key (record { stream = k; sequence = q })) [
        | yes e ↦
            completed-Moves k q call f reply s t (own e) cons n
              (subst (λ c. in_flight_of c.stream c.sequence s ≡ some f) e before)
              (i ∙ erased_here k q key st s e)
              (here_after k q key (result_of f (sanitize reply)) s t e c)
        | no ne ↦
            kept-Moves k q call s t cons (ap (ltb q) n) (i ∙ erased_elsewhere k q key st s there ne)
              (elsewhere_after k q key (result_of f (sanitize reply)) s t ne c)
      ]

  pub complete-Moves :
      (k : StreamKey) (q : ℕ) (stale : CachedKey → CachedKey) (a : Admission)
      (reply : OrderedTerminalReply) (s : OrderedIngress)
      → IsConsistent s
      → Moves k q (completes stale a reply) s (complete stale a reply s).0
  complete-Moves k q stale a reply s cons =
      let call : Call = completes stale a reply in
      complete_cases (λ p. next_of k p.0 ≡ next_of k s → Moves k q call s p.0) stale a reply s
        (λ e n. kept-Moves k q call s s cons refl refl (inr refl))
        (λ st f e there found n.
          cached-Moves k q call stale (record { stream = admission_key a; sequence = a.sequence }) f
            reply st s (λ own. (ap (λ c. c.stream) own, ap (λ c. c.sequence) own, refl)) cons there
            found n)
        (next_of-complete k stale a reply s)
