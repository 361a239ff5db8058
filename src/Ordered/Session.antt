-- ===== src/Ordered/Session.antt =====
-- framework/src/actor/OrderedSession.cc: the sender of an authorised stream. A ticket is identified
-- by the instance number of the session that issued it and by its sequence, which stand for the
-- address of the shared ticket.
pub mod Order
pub mod Sends
pub mod Open
use bbt_framework.Prelude.{
  ℕ, ◌+◌, ◌≡◌, Bool, true, false, not, ◌&&◌, List, [], ◌∷◌, ◌++◌, Option, none, some, String, ◌++ₛ◌,
  String_discrete, Dict, lookup, insert, emplace, ◌==◌, to_string, add64, u64_max, if◌then◌else◌,
}
use bbt_framework.Infra.{
  Infra, Error, make_error, Result, ok, err, invalid_argument, internal_error, remote_error,
}
use bbt_framework.Ordered.Types.{
  ◌==ₛ◌, OrderedGrant, OrderedTicket, BoundContent, bind_or_check, ordered_error_domain,
  sequence_gap, sequence_conflict,
}
use bbt_framework.Ordered.ErrorDomain.{error_detail_expected_sequence, validate_error_at_boundary}

pub record OrderedSession : Type 0 where
  pub grant : OrderedGrant
  pub instance_id : ℕ
  pub next_sequence : ℕ
  pub exhausted : Bool
  pub bind_watermark : ℕ
  pub tickets : Dict String OrderedTicket

-- `OrderedStamp` refers to a ticket of the session that issued it.
pub record OrderedStamp : Type 0 where
  pub issuer : ℕ
  pub sequence : ℕ
  pub request_id : String

abbrev pub blank_content : BoundContent
blank_content = record {
  service = "";
  method = "";
  actor_key = "";
  custom = "";
  request_bytes = "";
}

-- The constructor; the instance number comes from `g_session_instance`.
unfoldable pub new_session : OrderedGrant → ℕ → ℕ → OrderedSession
new_session grant first_sequence instance_id = record {
  grant = grant;
  instance_id = instance_id;
  next_sequence = first_sequence;
  exhausted = false;
  bind_watermark = 0;
  tickets = [];
}

unfoldable pub make_request_id : OrderedSession → ℕ → String
make_request_id s sequence =
    s.grant.producer_id
    ++ₛ "/"
    ++ₛ s.grant.producer_epoch
    ++ₛ "/"
    ++ₛ s.grant.receiver_epoch
    ++ₛ "/"
    ++ₛ to_string s.instance_id
    ++ₛ "/"
    ++ₛ to_string sequence

abbrev pub new_ticket : ℕ → String → OrderedTicket
new_ticket sequence request_id = record {
  sequence = sequence;
  request_id = request_id;
  bound_content = blank_content;
  bound = false;
}

-- Whether the entry that was found is the ticket of the stamp.
abbrev pub is_issued : OrderedSession → OrderedStamp → OrderedTicket → Bool
is_issued s stamp t = stamp.issuer == s.instance_id && stamp.sequence == t.sequence

module _ ⦃infra : Infra⦄ where
  abbrev pub ordered_domain_error : String → String → Error
  ordered_domain_error domain_code message = record (make_error remote_error message) {
    domain = ordered_error_domain;
    domain_code = domain_code;
  }

  unfoldable pub ordered_domain_error_with_details :
      String → String → List (String × String) → Error
  ordered_domain_error_with_details domain_code message details =
      let e = record (ordered_domain_error domain_code message) { details = details } in
      elim (validate_error_at_boundary e) [ ok _ ↦ e | err bad ↦ bad ]

  unfoldable pub prepare : OrderedSession → OrderedSession × Result OrderedStamp
  prepare s =
      let seq = s.next_sequence in
      let id = make_request_id s seq in
      let last = seq == u64_max in
      if s.exhausted
      then (s, err (make_error internal_error "ordered sequence space exhausted; refusing to wrap"))
      else (
        record s {
          exhausted = last;
          next_sequence = if last then seq else add64 seq 1;
          tickets = emplace String_discrete id (new_ticket seq id) s.tickets;
        },
        ok (record { issuer = s.instance_id; sequence = seq; request_id = id }),
      )

  -- The first send of the ticket next in order, or the reason of a refusal.
  unfoldable pub bind_ticket :
      OrderedTicket → BoundContent → OrderedSession → OrderedSession × Result (Unit {0})
  bind_ticket t content s =
      if t.bound
      then (
        s,
        if (bind_or_check content t).1
            then ok tt
            else err (
                ordered_domain_error sequence_conflict
                  "ordered ticket already bound to a different request"),
      )
      else if not (t.sequence == add64 s.bind_watermark 1)
      then (
        s,
        err (
            ordered_domain_error_with_details sequence_gap "first send would skip an unsent ticket"
              ((error_detail_expected_sequence, to_string (add64 s.bind_watermark 1)) ∷ [])),
      )
      else (
        record s {
          tickets = insert String_discrete t.request_id (bind_or_check content t).0 s.tickets;
          bind_watermark = add64 s.bind_watermark 1;
        },
        ok tt,
      )

  unfoldable pub bind_for_send :
      Option OrderedStamp → BoundContent → OrderedSession → OrderedSession × Result (Unit {0})
  unfolding bind_ticket
  bind_for_send none content s = (s, err (make_error invalid_argument "empty ordered stamp"))
  bind_for_send (some stamp) content s = elim (lookup String_discrete stamp.request_id s.tickets) [
    | none ↦ (s, err (make_error invalid_argument "ordered stamp not issued by this session"))
    | some t ↦
        if is_issued s stamp t
        then bind_ticket t content s
        else (s, err (make_error invalid_argument "ordered stamp not issued by this session"))
  ]

unfoldable pub is_ticket_sent : Option OrderedStamp → OrderedSession → Bool
is_ticket_sent none s = false
is_ticket_sent (some stamp) s = elim (lookup String_discrete stamp.request_id s.tickets) [
  | none ↦ false
  | some t ↦ if is_issued s stamp t then t.bound else false
]
