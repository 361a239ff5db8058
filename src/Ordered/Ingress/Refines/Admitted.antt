-- ===== src/Ordered/Ingress/Refines/Admitted.antt =====
-- OrderedIngress.cc: what a request makes of the status of each sequence.
use bbt_framework.Prelude.{
  ℕ, ◌+◌, ◌<◌, ◌≡◌, refl, sym, ap, subst, ◌∙◌, inr, true, false, ◌||◌, not, none, some, ite,
  ℕ_discrete, lookup, insert, lookup-emplace, ltb, u64_max, arith, if_both, is_empty, ◌==◌,
}
use bbt_framework.Infra.{Infra, Result}
use bbt_framework.Ordered.Ingress.{
  OrderedIngressRequest, Admission, StreamKey, StreamKey_discrete, InFlight, OrderedIngress,
}
use bbt_framework.Ordered.Ingress.Grants.{or_fresh}
use bbt_framework.Ordered.Ingress.Admit.{authorized, request_key, admit_stream, admit, consume}
use bbt_framework.Ordered.Ingress.Once.{next_of, Call, admits}
use bbt_framework.Ordered.Ingress.Once.{next_of-write}
use bbt_framework.Ordered.Ingress.Status.{
  in_flight_of, cached_of, status_of, admitted, IsConsistent,
}
use bbt_framework.Ordered.Ingress.Kept.{in_flight_of-write}
use bbt_framework.Ordered.Ingress.Refines.{Moves, kept-Moves}

module _ ⦃infra : Infra⦄ where
  -- A request leaves the ingress as it was, but for a stream that a refusal makes, or consumes the next
  -- sequence of its stream.
  admit_cases {ℓ} :
      (P : OrderedIngress → Type ℓ) (r : OrderedIngressRequest) (s : OrderedIngress)
      → P s
      → P (record s {
        streams =
            insert StreamKey_discrete
              (request_key r)
              (or_fresh (lookup StreamKey_discrete (request_key r) s.streams))
              s.streams;
      })
      → (r.sequence ≡ next_of (request_key r) s
          → P (record s {
            streams =
                insert StreamKey_discrete
                  (request_key r)
                  (consume r (or_fresh (lookup StreamKey_discrete (request_key r) s.streams)))
                  s.streams;
          }))
      → P (admit r s).0
  unfolding admit admit_stream
  admit_cases P r s same touched consumed =
      if_both {A = OrderedIngress × Result Admission} (λ p. P p.0) (not r.has_ordered_stamp) _ _
        (λ _. same)
        (λ _.
          if_both {A = OrderedIngress × Result Admission} (λ p. P p.0)
            (is_empty r.producer_id || (is_empty r.producer_epoch || is_empty r.receiver_epoch)) _ _
            (λ _. same)
            (λ _.
              if_both {A = OrderedIngress × Result Admission} (λ p. P p.0)
                (not (authorized r s.grants)) _ _ (λ _. same) (λ _. stream)))
    where
      next : ℕ
      next = next_of (request_key r) s

      stream :
          P (admit_stream r (or_fresh (lookup StreamKey_discrete (request_key r) s.streams)) s).0
      stream =
          if_both {A = OrderedIngress × Result Admission} (λ p. P p.0) (r.sequence == 0) _ _
            (λ _. touched)
            (λ _.
              if_both {A = OrderedIngress × Result Admission} (λ p. P p.0) (ltb next r.sequence) _ _
                (λ _. touched)
                (λ above.
                  if_both {A = OrderedIngress × Result Admission} (λ p. P p.0) (ltb r.sequence next)
                    _ _ (λ _. touched) (λ below. consumed (ground (arith, above, below)))))

  same-Moves :
      (k : StreamKey) (q : ℕ) (call : Call) (s t : OrderedIngress)
      → IsConsistent s
      → next_of k t ≡ next_of k s
      → in_flight_of k q t ≡ in_flight_of k q s
      → cached_of k q t ≡ cached_of k q s
      → Moves k q call s t
  same-Moves k q call s t cons n i c = kept-Moves k q call s t cons (ap (ltb q) n) i (inr c)

  -- The stream of the request: its next sequence is in progress, the others are as before.
  own-Moves :
      (q : ℕ) (r : OrderedIngressRequest) (s t : OrderedIngress)
      → IsConsistent s
      → r.sequence ≡ next_of (request_key r) s
      → next_of (request_key r) t ≡ r.sequence + 1
      → in_flight_of (request_key r) q t
        ≡ ite
            (ℕ_discrete r.sequence q)
            (some (record { request_id = r.request_id; digest = r.request_digest }))
            (in_flight_of (request_key r) q s)
      → cached_of (request_key r) q t ≡ cached_of (request_key r) q s
      → Moves (request_key r) q (admits r) s t
  unfolding status_of
  own-Moves q r s t cons at n i c =
      let k = request_key r in
      let f : InFlight = record { request_id = r.request_id; digest = r.request_digest } in
      elim (ℕ_discrete r.sequence q) [
        | no other ↦
            kept-Moves k q (admits r) s t cons (ground (arith, n, at, other))
              (i ∙ ground (arith, other)) (inr c)
        | yes e ↦
            let (none_in, none_kept) = (cons k q).0 (omega (arith, e, at)) in
            let was : ltb q (next_of k s) ≡ false = ground (arith, e, at) in
            let now : ltb q (next_of k t) ≡ true = ground (arith, e, at, n) in
            let found : in_flight_of k q t ≡ some f = i ∙ ground (arith, e) in
            (
              rw (was, now, found) (admitted f (refl, e, refl)),
              λ le. absurd (omega (arith, le, n, e)),
              λ x _. c ∙ none_kept,
            )
      ]

  consumed-Moves :
      (k : StreamKey) (q : ℕ) (r : OrderedIngressRequest) (s : OrderedIngress)
      → IsConsistent s
      → next_of k s < u64_max
      → r.sequence ≡ next_of (request_key r) s
      → Moves k q (admits r) s (record s {
        streams =
            insert StreamKey_discrete
              (request_key r)
              (consume r (or_fresh (lookup StreamKey_discrete (request_key r) s.streams)))
              s.streams;
      })
  consumed-Moves k q r s cons room at =
      let st = or_fresh (lookup StreamKey_discrete (request_key r) s.streams) in
      let f : InFlight = record { request_id = r.request_id; digest = r.request_digest } in
      let t = record s {
        streams = insert StreamKey_discrete (request_key r) (consume r st) s.streams;
      } in
      elim (StreamKey_discrete (request_key r) k) [
        | no other ↦
            same-Moves k q (admits r) s t cons
              (next_of-write k (request_key r) (consume r st) s ∙ ground (arith, other))
              (in_flight_of-write k (request_key r) q (consume r st) s ∙ ground (arith, other)) refl
        | yes e ↦
            let below : st.next_sequence < u64_max =
              subst (λ k. next_of k s < u64_max) (sym e) room in
            let new : lookup ℕ_discrete r.sequence st.in_flight ≡ none =
              ((cons (request_key r) r.sequence).0 (omega (arith, at))).0 in
            subst (λ k. Moves k q (admits r) s t) e
              (own-Moves q r s t cons at
                (next_of-write (request_key r) (request_key r) (consume r st) s
                  ∙ ground (arith, at, below))
                (in_flight_of-write (request_key r) (request_key r) q (consume r st) s
                  ∙ ground (arith, lookup-emplace ℕ_discrete r.sequence q f st.in_flight new))
                refl)
      ]

  pub admit-Moves :
      (k : StreamKey) (q : ℕ) (r : OrderedIngressRequest) (s : OrderedIngress)
      → IsConsistent s
      → next_of k s < u64_max
      → Moves k q (admits r) s (admit r s).0
  admit-Moves k q r s cons room =
      admit_cases (λ t. Moves k q (admits r) s t) r s
        (same-Moves k q (admits r) s s cons refl refl refl)
        (let st = or_fresh (lookup StreamKey_discrete (request_key r) s.streams) in
          same-Moves k q (admits r) s
            (record s { streams = insert StreamKey_discrete (request_key r) st s.streams }) cons
            (next_of-write k (request_key r) st s ∙ ground arith)
            (in_flight_of-write k (request_key r) q st s ∙ ground arith) refl)
        (λ at. consumed-Moves k q r s cons room at)
