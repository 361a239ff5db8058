-- ===== src/Tests/Ordered.antt =====
-- Ordered sessions and the ordered ingress on concrete inputs.
use bbt_framework.Tests.{test_infra}
use bbt_framework.Prelude.{
  ℕ, ◌≡◌, ◌≢◌, ◌<◌, ◌↔◌, ◌⊎◌, refl, true, List, [], ◌∷◌, some, arith, lookup, insert, emplace,
  String_discrete, All,
}
use bbt_framework.Infra.{Error, ok, err}
use bbt_framework.Ordered.Types.{
  OrderedGrant, BoundContent, stream_rejected, same_grant, same_ordered_stream_id,
}
use bbt_framework.Ordered.ErrorDomain.{
  validate_error_domain_rules, validate_error_domain_rules_iff, IsLegal,
}
use bbt_framework.Ordered.Ingress.{OrderedIngress, OrderedIngressRequest}
use bbt_framework.Ordered.Ingress.Admit.{admit, admit_stream, request_key, authorized}
use bbt_framework.Ordered.Ingress.Once.{
  Executes, is_entitled, next_of, admit-Executes_iff, executed_once, admits,
}
use bbt_framework.Ordered.Ingress.Once
use bbt_framework.Ordered.Session.{
  OrderedSession, OrderedStamp, ordered_domain_error, new_session, make_request_id, prepare,
}
use bbt_framework.Ordered.Session.Order.{prepares, binds, prepare_increases}
use bbt_framework.Ordered.Session.Order
use bbt_framework.Ordered.Session.Sends.{first_sends, iota, first_sends_in_order}
use bbt_framework.Ordered.Session.Open.{
  Sessions, open_impl, sweep, expire, scan, opens, expires, sweeps, one_live_session,
}
use bbt_framework.Ordered.Session.Open

abbrev seat : OrderedGrant
seat = record {
  service = "room";
  actor_key = "a";
  producer_id = "p";
  producer_epoch = "1";
  receiver_epoch = "1";
  peer_principal = "alice";
}

abbrev pub first_move : OrderedIngressRequest
first_move = record {
  method = "move";
  actor_key = "a";
  peer_principal = "alice";
  has_ordered_stamp = true;
  producer_id = "p";
  producer_epoch = "1";
  receiver_epoch = "1";
  sequence = 1;
  request_id = "r";
  request_digest = "d";
}

abbrev pub granted : OrderedIngress
granted = record {
  config = record {
    service = "room";
    max_ordered_streams = 2;
    max_cached_results = 4;
    max_cached_result_bytes = 100;
  };
  grants = seat ∷ [];
  streams = [];
  cached = [];
  cached_order = [];
  cached_bytes = 0;
}

admit-Executes_iff_example : Executes (admit first_move granted) ↔ (
    (is_entitled first_move granted ≡ true)
    × (1 ≡ next_of (request_key first_move) granted)
    × (first_move.sequence ≢ 0))
admit-Executes_iff_example = admit-Executes_iff first_move granted

executed_once_example : ¬ Executes (
    admit
      (record first_move { request_id = "other" })
      (Once.run (admit first_move granted).0 (admits first_move ∷ [])))
unfolding admit admit_stream authorized String_discrete lookup
executed_once_example =
    executed_once first_move (record first_move { request_id = "other" }) granted
      (admits first_move ∷ []) refl refl refl (omega arith)

abbrev gap : Error
gap = record (test_infra.blank_error) {
  domain = "framework.actor";
  details = ("expected_sequence", "12") ∷ [];
}

validate_error_domain_rules_iff_example :
    (validate_error_domain_rules gap ≡ ok tt) ↔ All (IsLegal gap.domain) gap.details
validate_error_domain_rules_iff_example = validate_error_domain_rules_iff gap

abbrev session : OrderedSession
session = new_session seat 1 5

abbrev stamp_of : ℕ → OrderedStamp
stamp_of n = record { issuer = 5; sequence = n; request_id = make_request_id session n }

abbrev content : BoundContent
content = record {
  service = "room";
  method = "move";
  actor_key = "a";
  custom = "";
  request_bytes = "left";
}

prepare_increases_example : 1 < 2
unfolding prepare new_session Order.run emplace lookup insert make_request_id
prepare_increases_example =
    prepare_increases session (prepare session).0 (prepare (prepare session).0).0 (stamp_of 1)
      (stamp_of 2) [] (omega arith) refl refl

abbrev calls : List Order.Call
calls =
    prepares ∷ prepares ∷ binds (some (stamp_of 2)) content ∷ binds (some (stamp_of 1)) content ∷ []

first_sends_in_order_example :
    (n : ℕ) × (first_sends (new_session seat 1 5) calls ≡ iota 1 n)
    × ((Order.run (new_session seat 1 5) calls).bind_watermark ≡ n)
first_sends_in_order_example = first_sends_in_order seat 1 5 calls (omega arith)

abbrev opened : Sessions
opened = (open_impl seat (record { registry = []; instances = 0 })).0

one_live_session_example :
    ((open_impl seat (Open.run opened (opens seat ∷ expires 7 ∷ sweeps ∷ []))).1 ≡ ok 1)
    ⊎ ((open_impl seat (Open.run opened (opens seat ∷ expires 7 ∷ sweeps ∷ []))).1
        ≡ err (
            ordered_domain_error stream_rejected
              "ordered stream grant conflicts with a live session"))
unfolding open_impl scan Open.run same_grant same_ordered_stream_id String_discrete
one_live_session_example =
    one_live_session (record { registry = []; instances = 0 })
      (opens seat ∷ expires 7 ∷ sweeps ∷ []) seat seat 1 refl (omega arith, tt) refl
