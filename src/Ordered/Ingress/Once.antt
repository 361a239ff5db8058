-- ===== src/Ordered/Ingress/Once.antt =====
-- No sequence is executed twice (OrderedIngress.cc): `next_sequence` of a stream never falls while
-- its session lasts, and a request is executed only at it.
use bbt_framework.Prelude.{
  ℕ, zero, suc, ◌+◌, ◌≤◌, ◌<◌, ◌≡◌, ◌≢◌, ◌↔◌, refl, ap, Bool, true, not, ◌&&◌, ◌||◌, List, [], ◌∷◌,
  ◌++◌, ite, ℕ_discrete, lookup, insert, lookup-insert, emplace, erase, is_empty, u64_max, length,
  arith, Option-cases, inl, inr,
}
use bbt_framework.Infra.{Infra, Result, ok, err}
use bbt_framework.Ordered.Ingress.{
  OrderedIngressRequest, OrderedTerminalReply, Admission, execute, StreamKey, StreamKey_discrete,
  InFlight, CachedKey, StreamState, OrderedIngress,
}
use bbt_framework.Ordered.Ingress.Cache.{remove_cached, forget_seq, evict, evict_to_limits}
use bbt_framework.Ordered.Ingress.Grants.{or_fresh}
use bbt_framework.Ordered.Ingress.Admit.{
  request_key, authorized, answer_consumed, admit_stream, admit, consume,
}
use bbt_framework.Ordered.Ingress.Complete.{
  sanitize, keep_reply, result_of, cache_reply, complete, complete_cases,
}

-- The next sequence of a stream; a stream that is not there starts at 1.
abbrev pub next_of : StreamKey → OrderedIngress → ℕ
next_of k s = (or_fresh (lookup StreamKey_discrete k s.streams)).next_sequence

-- Whether a request is stamped, complete and authorised.
abbrev pub is_entitled : OrderedIngressRequest → OrderedIngress → Bool
is_entitled r s =
    r.has_ordered_stamp
    && (not (is_empty r.producer_id || (is_empty r.producer_epoch || is_empty r.receiver_epoch))
        && authorized r s.grants)

abbrev pub Executes : {A : Type 0} → A × Result Admission → Type 0
Executes (_, ok a) = a.kind ≡ execute
Executes (_, err e) = ⊥

module _ ⦃infra : Infra⦄ where
  -- A request is executed exactly when it is stamped, complete and authorised and bears the next
  -- sequence of its stream, which is not 0.
  pub admit-Executes_iff :
      (r : OrderedIngressRequest) (s : OrderedIngress)
      → Executes (admit r s)
        ↔ ((is_entitled r s ≡ true) × (r.sequence ≡ next_of (request_key r) s) × (r.sequence ≢ 0))
  unfolding admit admit_stream answer_consumed
  admit-Executes_iff r s = (ground arith, ground arith)

next_of-forget_seq :
    (k : StreamKey) (c : CachedKey) (s : OrderedIngress)
    → next_of k (record s { streams = forget_seq c s.streams }) ≡ next_of k s
unfolding forget_seq
next_of-forget_seq k c s = elim (Option-cases (lookup StreamKey_discrete c.stream s.streams)) [
  | inl e ↦ rw (e, forget_seq)
  | inr (st, e) ↦ ground (
    arith,
    lookup-insert StreamKey_discrete c.stream k
        (record st { cached_seqs = erase ℕ_discrete c.sequence st.cached_seqs }) s.streams,
  )
]

pub next_of-remove_cached :
    (k : StreamKey) (c d : CachedKey) (s : OrderedIngress)
    → next_of k (remove_cached c d s) ≡ next_of k s
unfolding remove_cached
next_of-remove_cached k c d s = ground (arith, next_of-forget_seq k d s)

pub next_of-evict :
    (k : StreamKey) (stale : CachedKey → CachedKey) (fuel : ℕ) (s : OrderedIngress)
    (order : List CachedKey)
    → s.cached_order ≡ order
    → next_of k (evict stale fuel s) ≡ next_of k s
unfolding evict
next_of-evict k stale zero s order e = refl
next_of-evict k stale (suc fuel) s [] e = ground arith
next_of-evict k stale (suc fuel) s (c ∷ order) e = ground (
  arith,
  next_of-evict k stale fuel (remove_cached c (stale c) s) _ refl,
  next_of-remove_cached k c (stale c) s,
)

pub next_of-write :
    (k j : StreamKey) (st : StreamState) (s : OrderedIngress)
    → next_of k (record s { streams = insert StreamKey_discrete j st s.streams })
      ≡ ite (StreamKey_discrete j k) st.next_sequence (next_of k s)
next_of-write k j st s = ground (arith, lookup-insert StreamKey_discrete j k st s.streams)

module _ ⦃infra : Infra⦄ where
  next_of-cache_reply :
      (k : StreamKey) (stale : CachedKey → CachedKey) (c : CachedKey) (f : InFlight)
      (reply : OrderedTerminalReply) (st : StreamState) (s : OrderedIngress)
      → next_of c.stream s ≡ st.next_sequence
      → next_of k (cache_reply stale c f reply st s) ≡ next_of k s
  unfolding cache_reply evict_to_limits
  next_of-cache_reply k stale c f reply st s h = ground (
    arith,
    next_of-write k c.stream st s,
    next_of-write k c.stream
        (record st { cached_seqs = emplace ℕ_discrete c.sequence 0 st.cached_seqs }) s,
    next_of-evict k stale (suc (length (s.cached_order ++ c ∷ [])))
        (keep_reply c (result_of f reply) st s) _ refl,
  )

  pub next_of-complete :
      (k : StreamKey) (stale : CachedKey → CachedKey) (a : Admission) (reply : OrderedTerminalReply)
      (s : OrderedIngress)
      → next_of k (complete stale a reply s).0 ≡ next_of k s
  next_of-complete k stale a reply s =
      complete_cases (λ p. next_of k p.0 ≡ next_of k s) stale a reply s (λ e. refl)
        (λ st f _ e g. next_of-cache_reply k stale _ f (sanitize reply) _ s (ground arith))

  next_of-admit_bounds :
      (k : StreamKey) (r : OrderedIngressRequest) (s : OrderedIngress)
      → next_of k s < u64_max
      → (next_of k s ≤ next_of k (admit r s).0) × (next_of k (admit r s).0 ≤ next_of k s + 1)
  unfolding admit admit_stream
  next_of-admit_bounds k r s h = ground (
    arith,
    next_of-write k (request_key r) (or_fresh (lookup StreamKey_discrete (request_key r) s.streams))
        s,
    next_of-write k (request_key r)
        (consume r (or_fresh (lookup StreamKey_discrete (request_key r) s.streams))) s,
  )

-- What may reach an ingress between two grants: requests, and completions of admitted ones. What a
-- destroyed key reads is the environment's choice, at each completion.
pub data Call : Type 0 where
  admits : OrderedIngressRequest → Call
  completes : (CachedKey → CachedKey) → Admission → OrderedTerminalReply → Call

module _ ⦃infra : Infra⦄ where
  unfoldable pub step : OrderedIngress → Call → OrderedIngress
  step s (admits r) = (admit r s).0
  step s (completes stale a reply) = (complete stale a reply s).0

  unfoldable pub run : OrderedIngress → List Call → OrderedIngress
  unfolding step
  run s [] = s
  run s (c ∷ cs) = run (step s c) cs

  next_of-Executes :
      (r : OrderedIngressRequest) (s : OrderedIngress)
      → next_of (request_key r) s < u64_max
      → Executes (admit r s)
      → next_of (request_key r) (admit r s).0 ≡ r.sequence + 1
  unfolding admit admit_stream answer_consumed
  next_of-Executes r s h x = ground (
    arith,
    next_of-write (request_key r) (request_key r)
        (consume r (or_fresh (lookup StreamKey_discrete (request_key r) s.streams))) s,
  )

  pub next_of-step :
      (k : StreamKey) (s : OrderedIngress) (c : Call)
      → next_of k s < u64_max
      → (next_of k s ≤ next_of k (step s c)) × (next_of k (step s c) ≤ next_of k s + 1)
  unfolding step
  next_of-step k s (admits r) h = next_of-admit_bounds k r s h
  next_of-step k s (completes stale a reply) h = omega (arith, next_of-complete k stale a reply s)

  next_of-run :
      (k : StreamKey) (s : OrderedIngress) (cs : List Call)
      → next_of k s + length cs ≤ u64_max
      → next_of k s ≤ next_of k (run s cs)
  unfolding run
  next_of-run k s [] h = omega arith
  next_of-run k s (c ∷ cs) h =
      let (low, high) = next_of-step k s c (omega arith) in
      omega (arith, next_of-run k (step s c) cs (omega arith))

  -- After a request has been admitted for execution, no later request of the same stream with the
  -- same sequence is executed, whatever its content and whatever requests and completions come in
  -- between, as long as the session lasts and the 64-bit sequence does not run out.
  pub executed_once :
      (r again : OrderedIngressRequest) (s : OrderedIngress) (cs : List Call)
      → Executes (admit r s)
      → request_key again ≡ request_key r
      → again.sequence ≡ r.sequence
      → next_of (request_key r) s + length cs < u64_max
      → ¬ Executes (admit again (run (admit r s).0 cs))
  executed_once r again s cs h k q room x =
      let at = ((admit-Executes_iff r s).0 h).1 in
      let next = next_of-Executes r s (omega arith) h in
      let low = next_of-run (request_key r) (admit r s).0 cs (omega arith) in
      let at_again = ((admit-Executes_iff again _).0 x).1 in
      omega (arith, ap (λ j. next_of j (run (admit r s).0 cs)) k)
