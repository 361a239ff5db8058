-- ===== src/Ordered/Ingress/Complete.antt =====
-- OrderedIngress.cc, `Complete`: the terminal reply of an admitted request.
use bbt_framework.Prelude.{
  ◌≡◌, refl, inl, inr, Option-cases, [], ◌∷◌, ◌++◌, none, some, ℕ_discrete, lookup, insert, emplace,
  erase, ltb, add64, if◌then◌else◌,
}
use bbt_framework.Infra.{Infra, Error, make_error, Result, ok, err, invalid_argument}
use bbt_framework.Ordered.ErrorDomain.{validate_error_at_boundary}
use bbt_framework.Ordered.Ingress.{
  OrderedTerminalReply, Admission, DecisionKind, execute, replays, StreamKey, StreamKey_discrete,
  InFlight, CachedKey, CachedKey_discrete, CachedResult, StreamState, OrderedIngress, reply_bytes,
}
use bbt_framework.Ordered.Ingress.Cache.{evict_to_limits}

abbrev pub admission_key : Admission → StreamKey
admission_key a = record {
  actor_key = a.actor_key;
  producer_id = a.producer_id;
  producer_epoch = a.producer_epoch;
}

abbrev pub result_of : InFlight → OrderedTerminalReply → CachedResult
result_of f reply = record {
  request_id = f.request_id;
  digest = f.digest;
  reply = reply;
  bytes = reply_bytes reply;
}

-- The entry of the cache, its place in the order of completion, and its mark in the stream.
unfoldable pub keep_reply : CachedKey → CachedResult → StreamState → OrderedIngress → OrderedIngress
keep_reply key result st s = record s {
  cached = emplace CachedKey_discrete key result s.cached;
  cached_order = s.cached_order ++ key ∷ [];
  cached_bytes = add64 s.cached_bytes result.bytes;
  streams =
      insert StreamKey_discrete key.stream
        (record st { cached_seqs = emplace ℕ_discrete key.sequence 0 st.cached_seqs }) s.streams;
}

module _ ⦃infra : Infra⦄ where
  -- An error that does not pass the boundary is replaced by the error of the check, with no
  -- details.
  unfoldable pub sanitize : OrderedTerminalReply → OrderedTerminalReply
  sanitize reply = if reply.is_ok then reply else elim (validate_error_at_boundary reply.error) [
    | ok _ ↦ reply
    | err bad ↦ record reply { error = record bad { details = [] } }
  ]

  -- The reply goes into the cache, unless it alone exceeds the limit on bytes.
  unfoldable pub cache_reply :
      (CachedKey → CachedKey)
      → CachedKey
      → InFlight
      → OrderedTerminalReply
      → StreamState
      → OrderedIngress
      → OrderedIngress
  unfolding keep_reply
  cache_reply stale key f reply st s =
      let bytes = reply_bytes reply in
      if ltb s.config.max_cached_result_bytes bytes
      then record s { streams = insert StreamKey_discrete key.stream st s.streams }
      else evict_to_limits stale (keep_reply key (result_of f reply) st s)

  unfoldable pub complete_execute :
      (CachedKey → CachedKey)
      → Admission
      → OrderedTerminalReply
      → OrderedIngress
      → OrderedIngress × Result (Unit {0})
  unfolding sanitize cache_reply
  complete_execute stale a reply s = elim (lookup StreamKey_discrete (admission_key a) s.streams) [
    | none ↦ (
      s,
      err (
          make_error invalid_argument
            "ordered ingress: admission does not reference a live stream"),
    )
    | some st ↦ elim (lookup ℕ_discrete a.sequence st.in_flight) [
      | none ↦ (
        s,
        err (
            make_error invalid_argument
              "ordered ingress: admission is not in flight (already completed or not issued by this ingress)"),
      )
      | some f ↦ (
        cache_reply stale (record { stream = admission_key a; sequence = a.sequence }) f
            (sanitize reply) (record st { in_flight = erase ℕ_discrete a.sequence st.in_flight }) s,
        ok tt,
      )
    ]
  ]

  unfoldable pub complete :
      (CachedKey → CachedKey)
      → Admission
      → OrderedTerminalReply
      → OrderedIngress
      → OrderedIngress × Result (Unit {0})
  unfolding complete_execute
  complete stale a reply s = elim a.kind [
    | execute ↦ complete_execute stale a reply s
    | replays ↦ (
      s,
      err (make_error invalid_argument "ordered ingress: complete requires an execute admission"),
    )
  ]

  -- A completion is refused, or takes an in-flight request of a live stream to the cache.
  pub complete_cases {ℓ} :
      (P : OrderedIngress × Result (Unit {0}) → Type ℓ) (stale : CachedKey → CachedKey)
      (a : Admission) (reply : OrderedTerminalReply) (s : OrderedIngress)
      → ((e : Error) → P (s, err e))
      → ((st : StreamState) (f : InFlight)
          → a.kind ≡ execute
          → lookup StreamKey_discrete (admission_key a) s.streams ≡ some st
          → lookup ℕ_discrete a.sequence st.in_flight ≡ some f
          → P (
            cache_reply stale
                (record { stream = admission_key a; sequence = a.sequence })
                f
                (sanitize reply)
                (record st { in_flight = erase ℕ_discrete a.sequence st.in_flight })
                s,
            ok tt,
          ))
      → P (complete stale a reply s)
  unfolding complete complete_execute
  complete_cases P stale a reply s refused done = by_kind a.kind refl
    where
      by_kind : (k : DecisionKind) → a.kind ≡ k → P (complete stale a reply s)
      by_kind replays e = rw (e, complete) (refused _)
      by_kind execute e =
          rw (e, complete)
            (elim (Option-cases (lookup StreamKey_discrete (admission_key a) s.streams)) [
              | inl f ↦ rw (f, complete_execute) (refused _)
              | inr (st, f) ↦
                  rw (f, complete_execute)
                    (elim (Option-cases (lookup ℕ_discrete a.sequence st.in_flight)) [
                      | inl g ↦ rw (g, complete_execute) (refused _)
                      | inr (x, g) ↦ rw (g, complete_execute) (done st x e f g)
                    ])
            ])
