-- ===== src/Ordered/Ingress/Kept.antt =====
-- OrderedIngress.cc: what a completion and its eviction do to the replies and the requests of each
-- sequence.
use bbt_framework.Prelude.{
  ℕ, zero, suc, ◌≡◌, refl, sym, ap, ◌∙◌, ◌⊎◌, inl, inr, List, [], ◌∷◌, none, some, ite, ℕ_discrete,
  lookup, insert, lookup-insert, emplace, lookup-emplace, erase, lookup-erase, ltb, length, arith,
  Option-cases, if_both,
}
use bbt_framework.Infra.{Infra}
use bbt_framework.Ordered.Ingress.{
  OrderedTerminalReply, StreamKey, StreamKey_discrete, InFlight, CachedKey, CachedKey_discrete,
  CachedResult, StreamState, OrderedIngress, reply_bytes,
}
use bbt_framework.Ordered.Ingress.Cache.{
  remove_cached, forget_seq, evict, evict_to_limits, over_limits,
}
use bbt_framework.Ordered.Ingress.Complete.{keep_reply, result_of, cache_reply}
use bbt_framework.Ordered.Ingress.Status.{in_flight_of, cached_of}

-- The cache only loses entries by eviction.
abbrev pub Shrinks : StreamKey → ℕ → OrderedIngress → OrderedIngress → Type 0
Shrinks k q s t = (cached_of k q t ≡ none) ⊎ (cached_of k q t ≡ cached_of k q s)

Shrinks-remove_cached :
    (k : StreamKey) (q : ℕ) (c d : CachedKey) (s : OrderedIngress)
    → Shrinks k q s (remove_cached c d s)
unfolding remove_cached
Shrinks-remove_cached k q c d s = elim (Option-cases (lookup CachedKey_discrete c s.cached)) [
  | inl e ↦ rw (e, remove_cached) (inr refl)
  | inr (r, e) ↦
      rw (e, remove_cached)
        (elim (CachedKey_discrete c (record { stream = k; sequence = q })) [
          | yes same ↦ inl (
              ground (
                arith,
                lookup-erase CachedKey_discrete c (record { stream = k; sequence = q }) s.cached,
              ))
          | no differ ↦ inr (
              ground (
                arith,
                lookup-erase CachedKey_discrete c (record { stream = k; sequence = q }) s.cached,
              ))
        ])
]

Shrinks-then :
    (k : StreamKey) (q : ℕ) (s t u : OrderedIngress)
    → Shrinks k q s t
    → Shrinks k q t u
    → Shrinks k q s u
Shrinks-then k q s t u a (inl gone) = inl gone
Shrinks-then k q s t u (inl gone) (inr same) = inl (same ∙ gone)
Shrinks-then k q s t u (inr e) (inr same) = inr (same ∙ e)

in_flight_of-forget_seq :
    (k : StreamKey) (q : ℕ) (c : CachedKey) (s : OrderedIngress)
    → in_flight_of k q (record s { streams = forget_seq c s.streams }) ≡ in_flight_of k q s
unfolding forget_seq
in_flight_of-forget_seq k q c s =
    elim (Option-cases (lookup StreamKey_discrete c.stream s.streams)) [
      | inl e ↦ rw (e, forget_seq)
      | inr (st, e) ↦ ground (
        arith,
        lookup-insert StreamKey_discrete c.stream k
            (record st { cached_seqs = erase ℕ_discrete c.sequence st.cached_seqs }) s.streams,
      )
    ]

in_flight_of-remove_cached :
    (k : StreamKey) (q : ℕ) (c d : CachedKey) (s : OrderedIngress)
    → in_flight_of k q (remove_cached c d s) ≡ in_flight_of k q s
unfolding remove_cached
in_flight_of-remove_cached k q c d s = ground (arith, in_flight_of-forget_seq k q d s)

evict-keeps :
    (k : StreamKey) (q : ℕ) (stale : CachedKey → CachedKey) (fuel : ℕ) (s : OrderedIngress)
    (order : List CachedKey)
    → s.cached_order ≡ order
    → Shrinks k q s (evict stale fuel s)
      × (in_flight_of k q (evict stale fuel s) ≡ in_flight_of k q s)
unfolding evict
evict-keeps k q stale zero s order e = (inr refl, refl)
evict-keeps k q stale (suc fuel) s [] e = rw (e, evict) (inr refl, refl)
evict-keeps k q stale (suc fuel) s (c ∷ order) e =
    rw (e, evict)
      (if_both {A = OrderedIngress}
        (λ t. Shrinks k q s t × (in_flight_of k q t ≡ in_flight_of k q s)) (over_limits s) _ _
        (λ _.
          let next = remove_cached c (stale c) s in
          let (shrinks, same) = evict-keeps k q stale fuel next next.cached_order refl in
          (
            Shrinks-then k q s next (evict stale fuel next)
                (Shrinks-remove_cached k q c (stale c) s) shrinks,
            same ∙ in_flight_of-remove_cached k q c (stale c) s,
          ))
        (λ _. (inr refl, refl)))

-- A write of one stream.
pub in_flight_of-write :
    (k j : StreamKey) (q : ℕ) (st : StreamState) (s : OrderedIngress)
    → in_flight_of k q (record s { streams = insert StreamKey_discrete j st s.streams })
      ≡ ite (StreamKey_discrete j k) (lookup ℕ_discrete q st.in_flight) (in_flight_of k q s)
in_flight_of-write k j q st s = ground (arith, lookup-insert StreamKey_discrete j k st s.streams)

cached_of-keep_reply :
    (k : StreamKey) (q : ℕ) (c : CachedKey) (r : CachedResult) (st : StreamState)
    (s : OrderedIngress)
    → lookup CachedKey_discrete c s.cached ≡ none
    → cached_of k q (keep_reply c r st s)
      ≡ ite (CachedKey_discrete c (record { stream = k; sequence = q })) (some r) (cached_of k q s)
unfolding keep_reply
cached_of-keep_reply k q c r st s h =
    lookup-emplace CachedKey_discrete c (record { stream = k; sequence = q }) r s.cached h

in_flight_of-keep_reply :
    (k : StreamKey) (q : ℕ) (c : CachedKey) (r : CachedResult) (st : StreamState)
    (s : OrderedIngress)
    → in_flight_of k q (keep_reply c r st s)
      ≡ ite (StreamKey_discrete c.stream k) (lookup ℕ_discrete q st.in_flight) (in_flight_of k q s)
unfolding keep_reply
in_flight_of-keep_reply k q c r st s =
    in_flight_of-write k c.stream q
      (record st { cached_seqs = emplace ℕ_discrete c.sequence 0 st.cached_seqs }) s

-- What becomes of each sequence.
abbrev pub CachedAfter :
    StreamKey → ℕ → CachedKey → CachedResult → OrderedIngress → OrderedIngress → Type 0
CachedAfter k q c r s t =
    (cached_of k q t ≡ none)
    ⊎ (cached_of k q t
        ≡ ite (CachedKey_discrete c (record { stream = k; sequence = q })) (some r)
            (cached_of k q s))

abbrev pub InFlightAfter :
    StreamKey → ℕ → StreamKey → StreamState → OrderedIngress → OrderedIngress → Type 0
InFlightAfter k q j st s t =
    in_flight_of k q t
    ≡ ite (StreamKey_discrete j k) (lookup ℕ_discrete q st.in_flight) (in_flight_of k q s)

dropped_after :
    (k : StreamKey) (q : ℕ) (c : CachedKey) (r : CachedResult) (s t : OrderedIngress)
    → cached_of k q t ≡ cached_of k q s
    → lookup CachedKey_discrete c s.cached ≡ none
    → CachedAfter k q c r s t
dropped_after k q c r s t same h =
    elim (CachedKey_discrete c (record { stream = k; sequence = q })) [
      | yes e ↦ inl (same ∙ ap (λ key. lookup CachedKey_discrete key s.cached) (sym e) ∙ h)
      | no ne ↦ inr (same ∙ ground arith)
    ]

evicted_after :
    (k : StreamKey) (q : ℕ) (c : CachedKey) (r : CachedResult) (s y t : OrderedIngress)
    → cached_of k q y
      ≡ ite (CachedKey_discrete c (record { stream = k; sequence = q })) (some r) (cached_of k q s)
    → Shrinks k q y t
    → CachedAfter k q c r s t
evicted_after k q c r s y t h (inl gone) = inl gone
evicted_after k q c r s y t h (inr same) = inr (same ∙ h)

module _ ⦃infra : Infra⦄ where
  -- The completed reply is not kept, or it is and then others may be evicted.
  cache_reply_cases {ℓ} :
      (P : OrderedIngress → Type ℓ) (stale : CachedKey → CachedKey) (c : CachedKey) (f : InFlight)
      (reply : OrderedTerminalReply) (st : StreamState) (s : OrderedIngress)
      → P (record s { streams = insert StreamKey_discrete c.stream st s.streams })
      → ((fuel : ℕ) → P (evict stale fuel (keep_reply c (result_of f reply) st s)))
      → P (cache_reply stale c f reply st s)
  unfolding cache_reply evict_to_limits
  cache_reply_cases P stale c f reply st s dropped evicted =
      if_both {A = OrderedIngress} P (ltb s.config.max_cached_result_bytes (reply_bytes reply)) _ _
        (λ _. dropped)
        (λ _. evicted (suc (length (keep_reply c (result_of f reply) st s).cached_order)))

  pub cache_reply-after :
      (k : StreamKey) (q : ℕ) (stale : CachedKey → CachedKey) (c : CachedKey) (f : InFlight)
      (reply : OrderedTerminalReply) (st : StreamState) (s : OrderedIngress)
      → lookup CachedKey_discrete c s.cached ≡ none
      → CachedAfter k q c (result_of f reply) s (cache_reply stale c f reply st s)
        × InFlightAfter k q c.stream st s (cache_reply stale c f reply st s)
  cache_reply-after k q stale c f reply st s h =
      cache_reply_cases
        (λ t. CachedAfter k q c (result_of f reply) s t × InFlightAfter k q c.stream st s t) stale c
        f reply st s
        (
          dropped_after k q c (result_of f reply) s
              (record s { streams = insert StreamKey_discrete c.stream st s.streams }) refl h,
          in_flight_of-write k c.stream q st s,
        )
        (λ fuel.
          let y = keep_reply c (result_of f reply) st s in
          let (shrinks, same) = evict-keeps k q stale fuel y y.cached_order refl in
          (
            evicted_after k q c (result_of f reply) s y (evict stale fuel y)
                (cached_of-keep_reply k q c (result_of f reply) st s h) shrinks,
            same ∙ in_flight_of-keep_reply k q c (result_of f reply) st s,
          ))
