-- ===== src/Ordered/Ingress/Admit.antt =====
-- OrderedIngress.cc, `Admit`: the admission of a request of an ordered stream.
use bbt_framework.Prelude.{
  ℕ, Bool, false, not, ◌&&◌, ◌||◌, List, [], ◌∷◌, ◌++◌, Option, none, some, ℕ_discrete, lookup,
  insert, emplace, ltb, ◌==◌, is_empty, to_string, add64, if◌then◌else◌,
}
use bbt_framework.Infra.{Infra, Error, Result, ok, err}
use bbt_framework.Ordered.Types.{
  ◌==ₛ◌, OrderedGrant, sequence_gap, in_progress, sequence_conflict, result_expired,
  ordered_stamp_required, stream_rejected,
}
use bbt_framework.Ordered.ErrorDomain.{error_detail_expected_sequence, validate_error_at_boundary}
use bbt_framework.Ordered.Ingress.{
  OrderedIngressRequest, Admission, execute, replays, StreamKey, StreamKey_discrete, InFlight,
  CachedKey, CachedKey_discrete, CachedResult, StreamState, OrderedIngress, ordered_ingest_error,
  OrderedTerminalReply,
}
use bbt_framework.Ordered.Ingress.Grants.{or_fresh}

abbrev pub request_key : OrderedIngressRequest → StreamKey
request_key r = record {
  actor_key = r.actor_key;
  producer_id = r.producer_id;
  producer_epoch = r.producer_epoch;
}

-- The first grant of the request's producer stream decides.
unfoldable pub authorized : OrderedIngressRequest → List OrderedGrant → Bool
authorized r [] = false
authorized r (g ∷ gs) =
    let rest = authorized r gs in
    if not (g.actor_key ==ₛ r.actor_key) || not (g.producer_id ==ₛ r.producer_id)
    then rest
    else if not (g.producer_epoch ==ₛ r.producer_epoch)
    then rest
    else if not (g.receiver_epoch ==ₛ r.receiver_epoch)
    then false
    else g.peer_principal ==ₛ r.peer_principal

module _ ⦃infra : Infra⦄ where
  unfoldable pub gap_error : ℕ → Error
  gap_error next_sequence =
      let e =
        ordered_ingest_error sequence_gap "ordered sequence gap: future sequence not buffered" in
      let detailed = record e {
        details = e.details ++ (error_detail_expected_sequence, to_string next_sequence) ∷ [];
      } in
      elim (validate_error_at_boundary detailed) [ ok _ ↦ detailed | err bad ↦ bad ]

  abbrev pub blank_reply : OrderedTerminalReply
  blank_reply = record { is_ok = false; payload = ""; error = infra.blank_error }

  abbrev pub admission_of : OrderedIngressRequest → Admission
  admission_of r = record {
    kind = execute;
    sequence = r.sequence;
    actor_key = r.actor_key;
    producer_id = r.producer_id;
    producer_epoch = r.producer_epoch;
    replay = blank_reply;
  }

  -- A sequence that was consumed before: in flight, cached or evicted.
  unfoldable pub answer_consumed :
      OrderedIngressRequest → Option InFlight → Option CachedResult → Result Admission
  answer_consumed r (some f) cached =
      if f.request_id ==ₛ r.request_id && f.digest ==ₛ r.request_digest
      then err
          (ordered_ingest_error in_progress "ordered request of this sequence is still in progress")
      else err (
          ordered_ingest_error sequence_conflict
            "ordered sequence already bound to a different request")
  answer_consumed r none (some c) =
      if not (c.request_id ==ₛ r.request_id) || not (c.digest ==ₛ r.request_digest)
      then err (
          ordered_ingest_error sequence_conflict
            "ordered sequence already bound to a different request")
      else ok (record (admission_of r) { kind = replays; replay = c.reply })
  answer_consumed r none none = err (
      ordered_ingest_error result_expired
        "ordered result of this sequence was evicted from the cache")

  -- The admission boundary: the sequence is consumed and its request is in flight.
  abbrev pub consume : OrderedIngressRequest → StreamState → StreamState
  consume r st = record st {
    in_flight =
        emplace ℕ_discrete r.sequence
          (record { request_id = r.request_id; digest = r.request_digest }) st.in_flight;
    next_sequence = add64 st.next_sequence 1;
  }

  -- `streams_[key]` makes a missing stream, so the state comes back also with an error.
  unfoldable pub admit_stream :
      OrderedIngressRequest → StreamState → OrderedIngress → OrderedIngress × Result Admission
  admit_stream r st s =
      let touched = record s { streams = insert StreamKey_discrete (request_key r) st s.streams } in
      let key : CachedKey = record { stream = request_key r; sequence = r.sequence } in
      if r.sequence == 0
      then (touched, err (gap_error st.next_sequence))
      else if ltb st.next_sequence r.sequence
      then (touched, err (gap_error st.next_sequence))
      else if ltb r.sequence st.next_sequence
      then (
        touched,
        answer_consumed r (lookup ℕ_discrete r.sequence st.in_flight)
            (lookup CachedKey_discrete key s.cached),
      )
      else (
        record s { streams = insert StreamKey_discrete (request_key r) (consume r st) s.streams },
        ok (admission_of r),
      )

  unfoldable pub admit : OrderedIngressRequest → OrderedIngress → OrderedIngress × Result Admission
  unfolding authorized
  admit r s =
      if not r.has_ordered_stamp
      then (
        s,
        err (
            ordered_ingest_error ordered_stamp_required
              "ordered ingress requires an ordered stamp on this target"),
      )
      else if is_empty r.producer_id || (is_empty r.producer_epoch || is_empty r.receiver_epoch)
      then (s, err (ordered_ingest_error stream_rejected "ordered stamp fields incomplete"))
      else if not (authorized r s.grants)
      then (
        s,
        err (
            ordered_ingest_error stream_rejected
              "ordered stream not authorized for this actor/producer/epoch/peer"),
      )
      else admit_stream r (or_fresh (lookup StreamKey_discrete (request_key r) s.streams)) s
