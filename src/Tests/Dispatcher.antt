-- ===== src/Tests/Dispatcher.antt =====
-- The dispatch of inbound calls on concrete inputs.
use bbt_framework.Tests.{test_infra}
use bbt_framework.Prelude.{
  ℕ, ◌≡◌, ◌≤◌, ◌↔◌, refl, true, false, List, [], ◌∷◌, none, some, String, String_discrete, lookup,
  insert, All, arith, u64_max, to_string,
}
use bbt_framework.Infra.{ok}
use bbt_framework.Actor.Registry.{built}
use bbt_framework.Ordered.ErrorDomain.{is_unsigned_decimal, all_digits}
use bbt_framework.Host.Policy.{concurrent}
use bbt_framework.Host.Methods.{RpcMethod, find_method}
use bbt_framework.Host.Dispatcher.Decimal.{
  value, parse_unsigned_decimal, parse_unsigned_decimal_iff, parse-to_string, read_digits,
}
use bbt_framework.Host.Dispatcher.Digest.{ordered_request_digest_injective}
use bbt_framework.Host.Dispatcher.Metadata.{
  MetadataFields, no_fields, read_metadata, read_field, read_route, read_ordered, read_sequence,
  is_listed_key, route_fields, IsSound, read_metadata-IsSound, is_ordered_fw_key,
}
use bbt_framework.Host.Dispatcher.State.{
  IncomingCallContext, RpcEnvelope, PerService, InboundDispatcher, Pending, reply_of, running,
  resolve, check_envelope, find_target,
}
use bbt_framework.Host.Dispatcher.Enter.{Moment, enter, settle, start, context_of, put}
use bbt_framework.Host.Dispatcher.Leave.{Ending, leave, timed_out_waiting, finish_stage}
use bbt_framework.Host.Dispatcher.System.{
  System, enters, Reach, begin, later, Fresh, in_service, admitted_to, joined,
}
use bbt_framework.Host.Dispatcher.Counts.{places_counted}
use bbt_framework.Host.Dispatcher.Drained.{calls_end, end_all, Idle}
use bbt_framework.Host.Dispatcher.Replies.{replies_associated, MatchesRequest, Gets, at_end}

abbrev move : RpcMethod
move = record {
  name = "move";
  request_schema = "MoveRequest";
  response_schema = "MoveReply";
  actor_keyed = false;
  extract_key = λ payload. ok payload;
}

abbrev room : PerService ℕ
room = record {
  entry = record {
    options = record {
      execution = concurrent;
      max_inflight = 1;
      mailbox_capacity = 0;
      max_actors = 0;
      ordered_ingress = false;
      max_ordered_streams = 0;
      max_cached_results = 0;
      max_cached_result_bytes = 0;
    };
    table = move ∷ [];
    bound = some 7;
    ordered_ingress = none;
  };
  inflight = 0;
  mailboxes = [];
}

abbrev pub idle : InboundDispatcher ℕ ℕ
idle = record { services = ("room", room) ∷ []; registry = record { services = []; actors = [] } }

abbrev pub request : RpcEnvelope
request = record {
  service = "room";
  method = "move";
  request_id = "r1";
  request_schema = "MoveRequest";
  response_schema = "";
  metadata = ("route.zone", "west") ∷ [];
  payload = "left";
}

abbrev pub incoming : IncomingCallContext
incoming = record { deadline = 100; peer_principal = "alice" }

abbrev pub moment : Moment ℕ ℕ
moment = record {
  now = 10;
  call = λ f. built f;
  waiter_created = true;
  registers = true;
  spawns = true;
  stale = λ k. k;
}

abbrev ending : Ending
ending = record { handler = ok "done"; status = timed_out_waiting; task = none; stale = λ k. k }

abbrev one_call : System ℕ ℕ
one_call = record {
  dispatcher = (enter moment incoming request idle).0;
  calls = joined (enter moment incoming request idle).1 [];
}

idle-Fresh : Fresh idle
unfolding lookup String_discrete
idle-Fresh name svc there = ground arith

one_call-Reach : Reach idle one_call
one_call-Reach = later begin (enters moment incoming request (omega arith))

abbrev busy : PerService ℕ
busy = record room { inflight = 1 }

one_call_found : lookup String_discrete "room" one_call.dispatcher.services ≡ some busy
unfolding enter settle start resolve check_envelope find_target read_metadata read_field read_route
    find_method context_of lookup insert String_discrete
one_call_found = refl

places_counted_example :
    (1 ≡ in_service "room" one_call.calls) × (admitted_to "room" one_call.calls ≤ 1)
places_counted_example =
    places_counted idle one_call "room" busy idle-Fresh one_call-Reach one_call_found

calls_end_example :
    (after : InboundDispatcher ℕ ℕ) × (end_all (λ _. ending) one_call.calls one_call.dispatcher
      ≡ some after)
    × Idle after
calls_end_example = calls_end (λ _. ending) idle one_call idle-Fresh one_call-Reach

abbrev call : Pending
call = record {
  request = request;
  method = move;
  context = context_of incoming request (record no_fields { custom = ("zone", "west") ∷ [] });
  stage = running;
}

abbrev left : InboundDispatcher ℕ ℕ
left = (enter moment incoming request idle).0

abbrev answered : InboundDispatcher ℕ ℕ
answered = put "room" room left.registry left

call_Gets : Gets moment incoming request idle (ok (reply_of request move "done"))
unfolding enter settle start resolve check_envelope find_target read_metadata read_field read_route
    find_method context_of lookup insert String_discrete leave finish_stage reply_of
call_Gets = at_end call ending left answered refl refl

replies_associated_example : MatchesRequest idle request (reply_of request move "done")
replies_associated_example =
    replies_associated moment incoming request (reply_of request move "done") idle call_Gets

abbrev bars : String
bars = "1|1:2|"

ordered_request_digest_injective_example : (bars ≡ bars) × (bars ≡ bars) × (bars ≡ bars)
ordered_request_digest_injective_example =
    ordered_request_digest_injective bars bars bars bars bars bars refl

abbrev stamped : List (String × String)
stamped = ("route.zone", "west") ∷ ("fw.sequence", "12") ∷ []

abbrev stamped_fields : MetadataFields
stamped_fields = record no_fields {
  custom = ("zone", "west") ∷ [];
  sequence = 12;
  has_sequence = true;
}

read_metadata-IsSound_example :
    All (λ entry. is_listed_key entry.0 ≡ true) stamped
    × (stamped_fields.custom ≡ route_fields stamped)
    × IsSound stamped_fields
unfolding read_metadata read_field read_route read_ordered read_sequence is_ordered_fw_key
    parse_unsigned_decimal read_digits is_unsigned_decimal all_digits String_discrete
read_metadata-IsSound_example = read_metadata-IsSound stamped stamped_fields refl

parse-to_string_example : parse_unsigned_decimal (to_string 1207) ≡ some 1207
parse-to_string_example = parse-to_string 1207 (omega arith)

parse_unsigned_decimal_iff_example :
    (parse_unsigned_decimal "007" ≡ some 7)
    ↔ ((is_unsigned_decimal "007" ≡ true) × (value "007" 0 ≡ 7) × (7 ≤ u64_max))
parse_unsigned_decimal_iff_example = parse_unsigned_decimal_iff "007" 7

overflow : parse_unsigned_decimal "18446744073709551616" ≡ none
unfolding parse_unsigned_decimal read_digits is_unsigned_decimal all_digits
overflow = refl
